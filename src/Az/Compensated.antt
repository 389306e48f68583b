-- ===== src/Az/Compensated.antt =====
-- The compensation loop of internal/az/orchestrator/orchestrator.go leaves a resource in a final
-- status alone.
pub mod Rules
use vpc_workflow_demo.Az.Compensated.Rules.{resource-Keeps}
use vpc_workflow_demo.Dao.Vpc
use vpc_workflow_demo.Dao.Subnet
use vpc_workflow_demo.Dao.Table.Frame.{All-update_row}
use vpc_workflow_demo.Models.{
  Task, ResourceStatus, Kind, Row, Attrs, VpcResource, is_deleted, vpc, subnet, pccn,
  SubnetResource,
}
use vpc_workflow_demo.World.{World, attempt, ask, task_info, Result, ok, err, Env, tick}
use vpc_workflow_demo.Prelude.{
  ℕ, String, List, All, ltb, ◌&&◌, ◌∷◌, ◌-◌, not, [], ◌≡◌, ◌=?◌, true, ◌==◌, Bool-cases, false,
  arith, inl, text_eq_iff, ap, ◌∙◌, inr, order_by, Bool, All-from-In, select, suc, All-lookup, zero,
  In-select, In-order_by, All-append,
}
use vpc_workflow_demo.Dao.Table
use vpc_workflow_demo.Dao.Tasks
use vpc_workflow_demo.Dao.Tasks.{TaskStats}
use vpc_workflow_demo.World.Hoare.{
  Keeps, IsStable, Keeps-pure, Keeps-query, Keeps-attempt, Keeps-ignore, Keeps-now, Triple-bind,
  Triple-if, Triple, Keeps-exec, Post, Keeps-world, Triple-attempt, Triple-query,
}
use vpc_workflow_demo.Az.Orchestrator.{AzOrchestrator}
use vpc_workflow_demo.Az.Compensation.{
  in_flight, in_flight_of, any_in_flight, resource_has_in_flight_broker_task, fail_if_stale,
  compensate_by_stats, compensate_with, compensate_resource, is_final, max, compensate_rows,
  compensate_listed, compensate_subnets_in, compensation_ticks, run_compensation,
  compensate_subnets_of, compensate_vpcs, compensate_subnets, compensate_pccns,
}

ok_injective {ℓ} : {A : Type ℓ} (a b : A) → ok a ≡ ok b → a ≡ b
ok_injective a b h = cc

module _ {A : Type 0} (P : A → Type 0) where
  All-select : (p : A → Bool) (l : List A) → All P l → All P (select p l)
  All-select p l h = All-from-In P (select p l) (λ a m. All-lookup P l a h (In-select p l a m).0)

  All-order_by : (before : A → A → Bool) (l : List A) → All P l → All P (order_by before l)
  All-order_by before l h =
      All-from-In P (order_by before l) (λ a m. All-lookup P l a h (In-order_by before l a m))

All-joined_subnets :
    (P : SubnetResource → Type 0) (vs : List VpcResource) (ss : List SubnetResource)
    → All P ss
    → All P (Vpc.joined_subnets vs ss)
unfolding Vpc.joined_subnets
All-joined_subnets P [] ss h = tt
All-joined_subnets P (v ∷ vs) ss h =
    All-append P (select (Vpc.is_live_subnet_of v.name v.az) ss) (Vpc.joined_subnets vs ss)
      (All-select P (Vpc.is_live_subnet_of v.name v.az) ss h) (All-joined_subnets P vs ss h)

-- Every row with the id has the status.
abbrev pub RowStatus : String → ResourceStatus → (k : Kind) → Row (Attrs k) → Type 0
RowStatus id st k r = r.id ≡ id → r.status ≡ st

pub record HasStatus (id : String) (st : ResourceStatus) (w : World) : Type 0 where
  pub in_tables : (k : Kind) → All (RowStatus id st k) (Table.table k w)

module _ (id : String) (st : ResourceStatus) (final : is_final st ≡ true) (o : AzOrchestrator) where
  pub HasStatus-stable : IsStable (HasStatus id st)
  unfolding Table.table
  HasStatus-stable = record { stable = λ w h. record { in_tables = h.in_tables } }

  pub other-Keeps :
      (k : Kind) (j : String)
      → (j =? id) ≡ false
      → (s : ResourceStatus) (x : String)
      → Keeps (HasStatus id st) ((Table.store k).update_status j s x)
  unfolding Table.store Table.set_status
  other-Keeps k j differs s x = Keeps-exec HasStatus-stable _ (λ t w h. record {
    in_tables =
        All-update_row (RowStatus id st) (RowStatus id st) (λ i r p. p) k j (Table.set_status t s x)
          (λ r hit p same. absurd (clash r.id hit same)) w h.in_tables;
  })
    where
      clash : (i : String) → (i =? j) ≡ true → i ≡ id → ⊥
      clash i hit same = ground (arith, text_eq_iff i j, text_eq_iff j id, differs)

  row-Keeps :
      (k : Kind) (r : Row (Attrs k))
      → RowStatus id st k r
      → Keeps (HasStatus id st) (compensate_resource o k r.id r.status r.updated_at r.total_tasks)
  unfolding compensate_resource
  row-Keeps k r h = elim (Bool-cases (r.id =? id)) [
    | inl t ↦
        let over : is_final r.status ≡ true =
          ap (λ s. is_final s) (h ((text_eq_iff r.id id).0 t)) ∙ final in
        rw over (Keeps-pure _)
    | inr f ↦
        resource-Keeps HasStatus-stable o k r.id (other-Keeps k r.id f) r.status r.updated_at
          r.total_tasks
  ]

  rows-Keeps :
      (k : Kind) (rs : List (Row (Attrs k)))
      → All (RowStatus id st k) rs
      → Keeps (HasStatus id st) (compensate_rows o k rs)
  unfolding compensate_rows
  rows-Keeps k [] h = Keeps-pure _
  rows-Keeps k (r ∷ rs) h = Triple-bind _ _ (row-Keeps k r h.0) (λ _. rows-Keeps k rs h.1)

  -- The rows that a query answers are rows of the table.
  unfoldable pub Listed : (k : Kind) → List (Row (Attrs k)) → World → Type 0
  Listed k rs w = All (RowStatus id st k) rs × HasStatus id st w

  compensate_listed-Keeps :
      (k : Kind) (r : Result (List (Row (Attrs k))))
      → Triple
          (λ w. Post (Listed k) (HasStatus id st) (r, w))
          (compensate_listed o k r)
          (λ _. HasStatus id st)
          (HasStatus id st)
  unfolding compensate_listed Listed
  compensate_listed-Keeps k (ok rs) = record { at = λ e w h. (rows-Keeps k rs h.0).at e w h.1 }
  compensate_listed-Keeps k (err x) = Keeps-pure _

  pub list_all-Listed :
      (k : Kind) → Triple (HasStatus id st) (Table.list_all k) (Listed k) (HasStatus id st)
  unfolding Table.list_all Listed
  list_all-Listed k = Triple-query HasStatus-stable _ answered HasStatus-stable.stable
    where
      answered :
          (w : World) (a : List (Row (Attrs k)))
          → HasStatus id st w
          → ok (order_by Table.newer (select (λ r. not (is_deleted r.status)) (Table.table k w)))
            ≡ ok a
          → All (RowStatus id st k) a × HasStatus id st (tick w)
      answered w a h eq = (
        rw (← ok_injective _ _ eq) (
            All-order_by (RowStatus id st k) Table.newer _ (
              All-select (RowStatus id st k) (λ r. not (is_deleted r.status)) (Table.table k w)
                (h.in_tables k))),
        HasStatus-stable.stable w h,
      )

  list_by_vpc_id-Listed :
      (v : String)
      → Triple (HasStatus id st) (Subnet.list_by_vpc_id v) (Listed subnet) (HasStatus id st)
  unfolding Subnet.list_by_vpc_id Listed Table.table Vpc.subnets_of_vpc
  list_by_vpc_id-Listed v = Triple-query HasStatus-stable _ answered HasStatus-stable.stable
    where
      answered :
          (w : World) (a : List SubnetResource)
          → HasStatus id st w
          → ok (order_by Table.newer (Vpc.subnets_of_vpc v w)) ≡ ok a
          → All (RowStatus id st subnet) a × HasStatus id st (tick w)
      answered w a h eq = (
        rw (← ok_injective _ _ eq) (
            All-order_by (RowStatus id st subnet) Table.newer _ (
              All-joined_subnets (RowStatus id st subnet) (select (Table.has_id v) w.rows.vpcs)
                w.rows.subnets (h.in_tables subnet))),
        HasStatus-stable.stable w h,
      )

  subnets_of-Keeps : (vs : List VpcResource) → Keeps (HasStatus id st) (compensate_subnets_of o vs)
  unfolding compensate_subnets_of
  subnets_of-Keeps [] = Keeps-pure _
  subnets_of-Keeps (v ∷ vs) =
      Triple-bind _ _ (Triple-attempt _ (list_by_vpc_id-Listed v.id))
        (λ r. Triple-bind _ _ (compensate_listed-Keeps subnet r) (λ _. subnets_of-Keeps vs))

  subnets_in-Keeps :
      (r : Result (List VpcResource))
      → Triple
          (λ w. Post (Listed vpc) (HasStatus id st) (r, w))
          (compensate_subnets_in o r)
          (λ _. HasStatus id st)
          (HasStatus id st)
  unfolding compensate_subnets_in Listed
  subnets_in-Keeps (ok vs) = record { at = λ e w h. (subnets_of-Keeps vs).at e w h.1 }
  subnets_in-Keeps (err x) = Keeps-pure _

  run-Keeps : Keeps (HasStatus id st) (run_compensation o)
  unfolding run_compensation compensate_vpcs compensate_subnets compensate_pccns
  run-Keeps =
      Triple-bind _ _
        (Triple-bind _ _ (Triple-attempt _ (list_all-Listed vpc)) (compensate_listed-Keeps vpc))
        (λ _.
          Triple-bind _ _
            (Triple-bind _ _ (Triple-attempt _ (list_all-Listed vpc)) subnets_in-Keeps)
            (λ _.
              Triple-bind _ _ (Triple-attempt _ (list_all-Listed pccn))
                (compensate_listed-Keeps pccn)))

  ticks-Keeps : (n : ℕ) → Keeps (HasStatus id st) (compensation_ticks o n)
  unfolding compensation_ticks
  ticks-Keeps zero = Keeps-pure _
  ticks-Keeps (suc n) = Triple-bind _ _ run-Keeps (λ _. ticks-Keeps n)

-- If the status of every row with an id is `running`, `failed` or `deleted`, it stays so through
-- any number of passes of the compensation loop, whichever calls fail.
pub compensation_ticks-HasStatus :
    (o : AzOrchestrator) (n : ℕ) (id : String) (st : ResourceStatus) (e : Env) (w : World)
    → is_final st ≡ true
    → HasStatus id st w
    → HasStatus id st (compensation_ticks o n e w).1
compensation_ticks-HasStatus o n id st e w final h =
    Keeps-world (compensation_ticks o n) (ticks-Keeps id st final o n) e w h
