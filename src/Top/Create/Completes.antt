-- ===== src/Top/Create/Completes.antt =====
-- A VPC of a region, from its creation in internal/top/orchestrator/orchestrator.go to the end of the
-- background work.
use vpc_workflow_demo.Top.Watch.Running.{IsRunning, poll_az_worker_statuses-running}
use vpc_workflow_demo.Prelude.{
  ℕ, ◌+◌, ◌≡◌, refl, String, true, some, none, List, [], ◌∷◌, ◌++◌, ◌+++◌, find_where, text_eq_refl,
  Bool-cases, inl, inr, arith,
}
use vpc_workflow_demo.Models.{VpcRequest}
use vpc_workflow_demo.World.{Result, ok}
use vpc_workflow_demo.Top.World.{
  Top, TopEnv, IsCalm, Az, VpcRegistry, SagaDef, SagaStatus, TxStatus, attempt, ignore, pure, call,
  new_uuid, or_wrap, wrap_result, db_exec, exec_unless, asked, Event,
}
use vpc_workflow_demo.Top.Rules.{IsStable}
use vpc_workflow_demo.Top.Vpc.{named, has_id, register_vpc, upsert}
use vpc_workflow_demo.Top.Registry.{get_region_azs}
use vpc_workflow_demo.Top.Orchestrator.{Answer, Job, respond, check_zones, submit_saga, run_job}
use vpc_workflow_demo.Top.Orchestrator.Reads.{Keeps-get_region_azs, Keeps-check_zones}
use vpc_workflow_demo.Top.Watch.{
  mark_all, detail, watch_saga_and_poll_azs, wait_for_saga_completion,
}
use vpc_workflow_demo.Top.Create.{create_region_vpc, vpc_row, unhealthy}

-- What the zones and the saga library answer if all goes well: every zone is healthy, a saga is built
-- and submitted under the id `tx`, and has succeeded when it is asked about.
pub record GoesWell (tx : String) (e : TopEnv) : Type 0 where
  pub healthy : (n : ℕ) (addr : String) → e.health_check n addr ≡ none
  pub builds : (d : SagaDef) → e.saga_build d ≡ none
  pub submits : (n : ℕ) (d : SagaDef) → e.saga_submit n d ≡ ok tx
  pub saga : SagaStatus
  pub queried : (n : ℕ) → e.saga_query n tx ≡ ok (some saga)
  pub succeeded : saga.status ≡ TxStatus.succeeded

abbrev SameVpcs : Top → Top → Type 0
SameVpcs v w = w.vpcs ≡ v.vpcs

SameVpcs-stable : (v : Top) → IsStable (SameVpcs v)
SameVpcs-stable v = record { stable = λ w h. h }

check_zones-ok :
    (text : Az → String) (zs : List Az) (e : TopEnv) (w : Top)
    → ((n : ℕ) (addr : String) → e.health_check n addr ≡ none)
    → (check_zones text zs e w).0 ≡ ok tt
unfolding check_zones call pure
check_zones-ok text [] e w healthy = refl
check_zones-ok text (z ∷ zs) e w healthy =
    rw (healthy w.calls z.nsp_addr)
      (check_zones-ok text zs e (record w { calls = w.calls + 1 }) healthy)

find_where-last :
    (name : String) (l : List VpcRegistry) (v : VpcRegistry)
    → find_where (named name) l ≡ none
    → named name v ≡ true
    → find_where (named name) (l ++ v ∷ []) ≡ some v
unfolding find_where
find_where-last name [] v h t = rw t refl
find_where-last name (x ∷ l) v h t = elim (Bool-cases (named name x)) [
  | inl y ↦ absurd (ground (arith, h, y))
  | inr n ↦ rw n (find_where-last name l v (rw n at h) t)
]

-- What the creation leaves.
record Begun (tx : String) (req : VpcRequest) (zs : List Az) (x : Result Answer × Top)
    : Type 0 where
  answer : Answer
  result : x.0 ≡ ok answer
  success : answer.response.success ≡ true
  job : answer.background ≡ some (Job.watch_vpc tx req.vpc_name zs)
  row : VpcRegistry
  found : find_where (named req.vpc_name) x.1.vpcs ≡ some row
  details : row.az_details ≡ mark_all (detail "creating" "") zs []

module _ (tx : String) (req : VpcRequest) (z : Az) (zs : List Az) (e : TopEnv) (w : Top) where
  create_region_vpc-Begun :
      IsCalm e
      → GoesWell tx e
      → find_where (named req.vpc_name) w.vpcs ≡ none
      → ((n : ℕ) → find_where (has_id (e.uuid n)) w.vpcs ≡ none)
      → (get_region_azs req.region e w).0 ≡ ok (z ∷ zs)
      → Begun tx req (z ∷ zs) (create_region_vpc req e w)
  unfolding create_region_vpc respond attempt pure or_wrap wrap_result submit_saga call new_uuid
      register_vpc upsert ignore db_exec exec_unless vpc_row
  create_region_vpc-Begun calm well new free known =
      let v = (get_region_azs req.region e w).1 in
      let same : v.vpcs ≡ w.vpcs =
        (Keeps-get_region_azs (SameVpcs-stable w) req.region).at e w refl in
      let checked = check_zones-ok unhealthy (z ∷ zs) e v well.healthy in
      let u = (check_zones unhealthy (z ∷ zs) e v).1 in
      let kept : u.vpcs ≡ w.vpcs =
        (Keeps-check_zones (SameVpcs-stable w) unhealthy (z ∷ zs)).at e v same in
      let id = e.uuid u.calls in
      let made = vpc_row req id tx (z ∷ zs) in
      let t = e.clock (u.calls + 1 + 1 + 1) in
      let row : VpcRegistry = record made { created_at = t; updated_at = t } in
      rw (known, checked, well.builds, well.submits, kept, new, free u.calls, calm.no_fault)
        (record {
          answer = record {
            response = record {
              success = true;
              message = "VPC创建任务已提交，事务ID: " +++ tx;
              id = "";
              workflow_id = tx;
            };
            background = some (Job.watch_vpc tx req.vpc_name (z ∷ zs));
          };
          result = refl;
          success = refl;
          job = refl;
          row = row;
          found = find_where-last req.vpc_name w.vpcs row new (text_eq_refl req.vpc_name);
          details = refl;
        })

  -- If no statement fails, all zones of the region are healthy, the saga succeeds, every zone answers that
  -- the VPC runs, and the name and the new id are not in the table, then the creation is answered with
  -- success, and the goroutine that it starts ends, after one tick of each of its loops, with the VPC
  -- `running`, with exactly the details of a running zone for each zone of the region.
  pub create_region_vpc-run_job :
      (es fs : List Event)
      → IsCalm e
      → GoesWell tx e
      → IsRunning req.vpc_name e
      → find_where (named req.vpc_name) w.vpcs ≡ none
      → ((n : ℕ) → find_where (has_id (e.uuid n)) w.vpcs ≡ none)
      → (get_region_azs req.region e w).0 ≡ ok (z ∷ zs)
      → ((a : Answer) × ((create_region_vpc req e w).0 ≡ ok a)
          × (a.response.success ≡ true)
          × (a.background ≡ some (Job.watch_vpc tx req.vpc_name (z ∷ zs))))
        × ((run_job
              (Event.ticked ∷ es)
              (Event.ticked ∷ fs)
              (Job.watch_vpc tx req.vpc_name (z ∷ zs))
              e
              (create_region_vpc req e w).1).0
            ≡ ok true)
        × ((x : VpcRegistry) × (find_where
                (named req.vpc_name)
                (run_job
                  (Event.ticked ∷ es)
                  (Event.ticked ∷ fs)
                  (Job.watch_vpc tx req.vpc_name (z ∷ zs))
                  e
                  (create_region_vpc req e w).1).1.vpcs
              ≡ some x)
            × (x.status ≡ "running")
            × (x.az_details ≡ mark_all (detail "running" "") (z ∷ zs) []))
  unfolding run_job watch_saga_and_poll_azs wait_for_saga_completion asked pure
  create_region_vpc-run_job es fs calm well run new free known =
      let b = create_region_vpc-Begun calm well new free known in
      let v = (create_region_vpc req e w).1 in
      let polled =
        poll_az_worker_statuses-running fs req.vpc_name z zs e (record v { calls = v.calls + 1 })
          b.row calm run b.found b.details in
      (
        (b.answer, b.result, b.success, b.job),
        rw (well.queried v.calls, well.succeeded) (polled.0),
        rw (well.queried v.calls, well.succeeded) (polled.1),
      )
