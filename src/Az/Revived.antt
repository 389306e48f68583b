-- ===== src/Az/Revived.antt =====
-- A VPC that `DeleteVPC` of internal/az/orchestrator/orchestrator.go has begun to delete, and the next pass of
-- the compensation loop over its row.
use vpc_workflow_demo.Az.Completed.{compensate_resource-completed}
use vpc_workflow_demo.Az.Compensation.{max, compensate_resource}
use vpc_workflow_demo.Dao.Tasks
use vpc_workflow_demo.Workflow.Counters.{completed_of}
use mathlib.Core.Path.{subst}
use vpc_workflow_demo.Prelude.{
  ℕ, Option, none, ◌≡◌, ◌∙◌, sym, refl, String, Bool, some, find_where, ◌==◌, ◌≤◌, count_where, ◌+◌,
}
use vpc_workflow_demo.Models.{VpcResource, ResourceStatus, vpc}
use vpc_workflow_demo.World.{
  Exec, World, Rows, Result, ok, err, Err, tick, http_get, Env, IsFaultless,
}
use vpc_workflow_demo.World.Hoare.{
  Triple, Keeps, Post, IsStable, Triple-query, Triple-bind, Triple-exec, Triple-or_wrap, Triple-if,
  Keeps-pure, Keeps-raise, Keeps-query, Keeps-attempt,
}
use vpc_workflow_demo.Dao.Table
use vpc_workflow_demo.Dao.Vpc
use vpc_workflow_demo.Workflow.Run.{find_row}
use vpc_workflow_demo.Az.Orchestrator.{AzOrchestrator}
use vpc_workflow_demo.Az.Delete.{
  delete_vpc, check_deletable, guard, check_zone_policies, count_or_zero,
}
use vpc_workflow_demo.Az.Compensated.Rules.{Keeps-ask}
use vpc_workflow_demo.Az.Deleted.{Any, Triple-or_missing, Triple-frame, one_ok}

-- The rows and the tasks have not changed since.
record Same (v w : World) : Type 0 where
  rows : w.rows ≡ v.rows
  tasks : w.tasks ≡ v.tasks

Same-stable : (v : World) → IsStable (Same v)
Same-stable v = record { stable = λ w h. record { rows = h.rows; tasks = h.tasks } }

-- The row of the VPC is being deleted, and its tasks are those of before.
record Leaving (v : VpcResource) (before w : World) : Type 0 where
  row : VpcResource
  found : find_where (Table.has_id v.id) (Table.table vpc w) ≡ some row
  is_it : row.id ≡ v.id
  status : row.status ≡ ResourceStatus.deleting
  total : row.total_tasks ≡ v.total_tasks
  tasks : w.tasks ≡ before.tasks

some_injective : (u v : VpcResource) → some u ≡ some v → u ≡ v
some_injective u v h = cc

weakened {ℓ} : {A : Type ℓ} {P : World → Type 0} (m : Exec A) → Keeps P m → Triple P m (λ _. P) Any
weakened {A = A} {P = P} m k = record { at = λ e w p. weaker (m e w).0 (m e w).1 (k.at e w p) }
  where
    weaker : (r : Result A) (w : World) → Post (λ _. P) P (r, w) → Post (λ _. P) Any (r, w)
    weaker (ok a) w h = h
    weaker (err x) w h = tt

kept {ℓ} :
    {A : Type ℓ} (P : World → Type 0) (r : Result A) (w : World) → P w → Post (λ _. P) P (r, w)
kept P (ok a) w p = p
kept P (err x) w p = p

returned {ℓ} :
    {A : Type ℓ} (P : World → Type 0) (r : Result A) (w : World) (a : A)
    → r ≡ ok a
    → Post (λ _. P) Any (r, w)
    → P w
returned P (ok b) w a h p = p
returned P (err x) w a h p = absurd (cc h)

module _ {P : World → Type 0} (s : IsStable P) (o : AzOrchestrator) where
  guard-Keeps : (b : Bool) (x : Err) → Keeps P (guard b x)
  unfolding guard
  guard-Keeps b x = Triple-if b _ _ (Keeps-raise x) (Keeps-pure tt)

  http_get-Keeps : (url : String) → Keeps P (http_get url)
  unfolding http_get
  http_get-Keeps url = record {
    at = λ e w p. kept P (e.http_get w.calls url) (tick w) (s.stable w p);
  }

  count_or_zero-Keeps : (n : Option ℕ) → Keeps P (count_or_zero n)
  count_or_zero-Keeps none = Keeps-raise _
  count_or_zero-Keeps (some n) = Keeps-pure n

  count-Keeps : (name : String) → Keeps P (Vpc.count_subnets name o.az)
  unfolding Vpc.count_subnets
  count-Keeps name = Keeps-query s _

  policies-Keeps : (zone : String) → Keeps P (check_zone_policies o zone)
  unfolding check_zone_policies
  policies-Keeps zone = Triple-bind _ _ Keeps-ask (λ e.
      Triple-bind _ _ (http_get-Keeps _)
        (λ a. Triple-if (a.status_code == 200) _ _ (count_or_zero-Keeps a.count) (Keeps-pure 0)))

  check-Keeps : (v : VpcResource) (n : Exec ℕ) → Keeps P n → Keeps P (check_deletable o v n)
  unfolding check_deletable
  check-Keeps v n k = Triple-bind _ _ (guard-Keeps _ _) (λ _.
      Triple-bind _ _ (Triple-or_wrap _ _ k) (λ m.
        Triple-bind _ _ (guard-Keeps _ _)
          (λ _. Triple-bind _ _ (Keeps-attempt _ (policies-Keeps _)) (λ p. guard-Keeps _ _))))

module _ (o : AzOrchestrator) (name : String) (w₀ : World) (v : VpcResource)
    (named : find_where (Table.has_name name o.az) w₀.rows.vpcs ≡ some v)
    (keyed : find_where (Table.has_id v.id) w₀.rows.vpcs ≡ some v) where
  get_by_name-Same :
      Triple (Same w₀) (Table.get_by_name vpc name o.az) (λ u w. (u ≡ v) × Same w₀ w) Any
  unfolding Table.get_by_name Table.table
  get_by_name-Same = Triple-query (Same-stable w₀) _ answered (λ w h. tt)
    where
      answered :
          (w : World) (u : VpcResource)
          → Same w₀ w
          → Table.one (find_where (Table.has_name name o.az) w.rows.vpcs) ≡ ok u
          → (u ≡ v) × Same w₀ (tick w)
      answered w u h eq = (
        some_injective u v (
            sym (
              subst (λ (rows : Rows). find_where (Table.has_name name o.az) rows.vpcs ≡ some u)
                h.rows (one_ok _ u eq))
            ∙ named),
        (Same-stable w₀).stable w h,
      )

  update-Leaving :
      (u : VpcResource)
      → Triple
          (λ w. (u ≡ v) × Same w₀ w)
          (Vpc.store.update_status u.id ResourceStatus.deleting "")
          (λ _. Leaving v w₀)
          Any
  unfolding Table.store Table.set_status Table.update_row Table.set_rows Table.table
  update-Leaving u =
      Triple-exec _
        (λ t w h.
          let written = Table.set_status t ResourceStatus.deleting "" in
          let here : find_where (Table.has_id v.id) (Table.table vpc w) ≡ some v =
            rw h.1.rows keyed in
          let row = find_row vpc v.id written w v (λ r i. r.id) here in
          rw (h.0) (record {
            row = written v;
            found = row;
            is_it = refl;
            status = refl;
            total = refl;
            tasks = h.1.tasks;
          }))
        (λ w h. tt)

  delete_vpc-Leaving : Triple (Same w₀) (delete_vpc o name) (λ _. Leaving v w₀) Any
  unfolding delete_vpc
  delete_vpc-Leaving = Triple-bind _ _ (Triple-or_missing _ _ _ get_by_name-Same) (λ u.
      Triple-bind _ _
        (Triple-frame (u ≡ v) _
          (weakened _ (check-Keeps (Same-stable w₀) o u _ (count-Keeps (Same-stable w₀) o name))))
        (λ _. Triple-or_wrap _ _ (update-Leaving u)))

-- If `DeleteVPC` answers no error for a VPC that is found by its name and by its id, and all tasks of the
-- VPC are completed, as many as it has, then its row is `deleting`; and the next pass of the compensation
-- loop over this row, if none of its calls fails, sets the VPC back to `running`.
pub compensate_resource-delete_vpc :
    (o : AzOrchestrator) (name : String) (e f : Env) (w : World) (v : VpcResource)
    → find_where (Table.has_name name o.az) w.rows.vpcs ≡ some v
    → find_where (Table.has_id v.id) w.rows.vpcs ≡ some v
    → (delete_vpc o name e w).0 ≡ ok tt
    → 1 ≤ completed_of v.id w.tasks
    → completed_of v.id w.tasks ≡ max (count_where (Tasks.of_resource v.id) w.tasks) v.total_tasks
    → IsFaultless f
    → (u : VpcResource) × (find_where (Table.has_id v.id) (delete_vpc o name e w).1.rows.vpcs
        ≡ some u)
      × (u.status ≡ ResourceStatus.deleting)
      × ((x : VpcResource) × (find_where
              (Table.has_id v.id)
              (compensate_resource o vpc u.id u.status u.updated_at u.total_tasks f
                (delete_vpc o name e w).1).1.rows.vpcs
            ≡ some x)
          × (x.status ≡ ResourceStatus.running))
unfolding Table.table Table.set_status
compensate_resource-delete_vpc o name e f w v named keyed worked some_done all_done calm =
    let v' = (delete_vpc o name e w).1 in
    let l =
      returned (Leaving v w) (delete_vpc o name e w).0 v' tt worked (
        (delete_vpc-Leaving o name w v named keyed).at e w
          (record { rows = refl; tasks = refl })) in
    let back = Table.set_status (f.clock (v'.calls + 1)) ResourceStatus.running "" in
    let passed =
      compensate_resource-completed o vpc v.id ResourceStatus.deleting l.row.updated_at
        v.total_tasks f v' calm refl (rw l.tasks some_done) (rw l.tasks all_done) in
    let seen : compensate_resource o vpc l.row.id l.row.status l.row.updated_at l.row.total_tasks f
          v'
        ≡ (ok tt, tick (Table.update_row vpc v.id back (tick v'))) =
      rw (l.status, l.is_it, l.total) passed in
    let row = find_row vpc v.id back (tick v') l.row (λ r i. r.id) l.found in
    (l.row, l.found, l.status, (back l.row, rw seen row, refl))
