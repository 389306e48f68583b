-- ===== src/Az/Compensation.antt =====
-- The compensation loop of internal/az/orchestrator/orchestrator.go.
use vpc_workflow_demo.World.{
  Result, Exec, TaskState, TaskDetail, ok, ◌>>=◌, ◌>>◌, ask, attempt, pure, now, err, ignore,
  task_info,
}
use vpc_workflow_demo.Prelude.{
  List, String, ℕ, if◌then◌else◌, Bool, ◌==◌, true, ltb, ◌-◌, ◌&&◌, false, ◌∷◌, not, [], ◌=?◌, suc,
  zero,
}
use vpc_workflow_demo.Models.{
  Task, TaskStatus, ResourceStatus, Kind, Row, VpcResource, Attrs, vpc, pccn, subnet,
}
use vpc_workflow_demo.Dao.Table
use vpc_workflow_demo.Dao.Tasks
use vpc_workflow_demo.Dao.Tasks.{TaskStats}
use vpc_workflow_demo.Dao.Vpc
use vpc_workflow_demo.Dao.Subnet
use vpc_workflow_demo.Dao.Pccn
use vpc_workflow_demo.Az.Orchestrator.{AzOrchestrator, resolve_queue_name}

-- Five minutes, in seconds.
abbrev pub stale_workflow_timeout : ℕ
stale_workflow_timeout = 300

-- The states in which the broker still has work to do.
abbrev pub task_is_in_flight : TaskState → Bool
task_is_in_flight TaskState.pending = true
task_is_in_flight TaskState.scheduled = true
task_is_in_flight TaskState.active = true
task_is_in_flight TaskState.retry = true
task_is_in_flight _ = false

abbrev pub is_waiting : TaskStatus → Bool
is_waiting TaskStatus.queued = true
is_waiting TaskStatus.running = true
is_waiting _ = false

abbrev pub detail_in_flight : Result TaskDetail → Bool
detail_in_flight (ok d) = task_is_in_flight d.state
detail_in_flight (err _) = false

-- The broker is asked about a task that it has; another task is judged by its status.
unfoldable pub in_flight : AzOrchestrator → Task → Exec Bool
in_flight o t = do
  env ← ask
  if env.is_task_reader && not (t.asynq_task_id =? "")
      then (do
        detail ← attempt (task_info (resolve_queue_name o t.device_type t.priority) t.asynq_task_id)
        pure (detail_in_flight detail))
      else pure (is_waiting t.status)

unfoldable pub any_in_flight : AzOrchestrator → List Task → Exec Bool
any_in_flight o [] = pure false
any_in_flight o (t ∷ ts) =
    let rest = any_in_flight o ts in in_flight o t >>= λ b. if b then pure true else rest

unfoldable pub in_flight_of : AzOrchestrator → Result (List Task) → Exec Bool
unfolding any_in_flight
in_flight_of o (ok ts) = any_in_flight o ts
in_flight_of o (err _) = pure false

unfoldable pub resource_has_in_flight_broker_task : AzOrchestrator → String → Exec Bool
unfolding in_flight_of
resource_has_in_flight_broker_task o id = do
  ts ← attempt (Tasks.get_by_resource_id id)
  in_flight_of o ts

-- The statuses that the loop leaves alone.
abbrev pub is_final : ResourceStatus → Bool
is_final ResourceStatus.running = true
is_final ResourceStatus.failed = true
is_final ResourceStatus.deleted = true
is_final _ = false

abbrev pub max : ℕ → ℕ → ℕ
max a b = if ltb b a then a else b

unfoldable pub fail_if_stale : Kind → String → ℕ → Exec (Unit {0})
fail_if_stale k id updated_at = do
  t ← now
  if ltb stale_workflow_timeout (t - updated_at)
      then ignore ((Table.store k).update_status id ResourceStatus.failed "workflow reply timeout")
      else pure tt

-- What the counts of the tasks decide.
unfoldable pub compensate_by_stats :
    AzOrchestrator → Kind → String → ℕ → ℕ → TaskStats → Exec (Unit {0})
unfolding fail_if_stale
compensate_by_stats o k id updated_at total_tasks s =
    if (s.total == 0) && (total_tasks == 0)
    then pure tt
    else if ltb 0 s.completed && (s.completed == max s.total total_tasks)
    then ignore ((Table.store k).update_status id ResourceStatus.running "")
    else if ltb 0 s.failed
    then ignore ((Table.store k).update_status id ResourceStatus.failed "workflow step failed")
    else do
      busy ← resource_has_in_flight_broker_task o id
      if busy then pure tt else fail_if_stale k id updated_at

unfoldable pub compensate_with :
    AzOrchestrator → Kind → String → ℕ → ℕ → Result TaskStats → Exec (Unit {0})
unfolding compensate_by_stats
compensate_with o k id updated_at total_tasks (ok s) =
    compensate_by_stats o k id updated_at total_tasks s
compensate_with o k id updated_at total_tasks (err _) = pure tt

unfoldable pub compensate_resource :
    AzOrchestrator → Kind → String → ResourceStatus → ℕ → ℕ → Exec (Unit {0})
unfolding compensate_with
compensate_resource o k id status updated_at total_tasks = if is_final status then pure tt else do
  stats ← attempt (Tasks.get_task_stats id)
  compensate_with o k id updated_at total_tasks stats

-- The loop over the rows that a query has returned.
unfoldable pub compensate_rows :
    AzOrchestrator → (k : Kind) → List (Row (Attrs k)) → Exec (Unit {0})
compensate_rows o k [] = pure tt
compensate_rows o k (r ∷ rs) =
    let rest = compensate_rows o k rs in
    compensate_resource o k r.id r.status r.updated_at r.total_tasks >>= λ _. rest

unfoldable pub compensate_listed :
    AzOrchestrator → (k : Kind) → Result (List (Row (Attrs k))) → Exec (Unit {0})
unfolding compensate_rows
compensate_listed o k (ok rs) = compensate_rows o k rs
compensate_listed o k (err _) = pure tt

unfoldable pub compensate_vpcs : AzOrchestrator → Exec (Unit {0})
unfolding compensate_listed
compensate_vpcs o = do rs ← attempt Vpc.list_all; compensate_listed o vpc rs

unfoldable pub compensate_subnets_of : AzOrchestrator → List VpcResource → Exec (Unit {0})
unfolding compensate_listed
compensate_subnets_of o [] = pure tt
compensate_subnets_of o (v ∷ vs) =
    let rest = compensate_subnets_of o vs in
    attempt (Subnet.list_by_vpc_id v.id) >>= λ ss. compensate_listed o subnet ss >>= λ _. rest

unfoldable pub compensate_subnets_in : AzOrchestrator → Result (List VpcResource) → Exec (Unit {0})
unfolding compensate_subnets_of
compensate_subnets_in o (ok vs) = compensate_subnets_of o vs
compensate_subnets_in o (err _) = pure tt

unfoldable pub compensate_subnets : AzOrchestrator → Exec (Unit {0})
unfolding compensate_subnets_in
compensate_subnets o = do vs ← attempt Vpc.list_all; compensate_subnets_in o vs

unfoldable pub compensate_pccns : AzOrchestrator → Exec (Unit {0})
unfolding compensate_listed
compensate_pccns o = do rs ← attempt Pccn.list_all; compensate_listed o pccn rs

unfoldable pub run_compensation : AzOrchestrator → Exec (Unit {0})
unfolding compensate_vpcs compensate_subnets compensate_pccns
run_compensation o = do compensate_vpcs o; compensate_subnets o; compensate_pccns o

-- `StartCompensationTask` until its context is done: one pass for each tick of the timer.
unfoldable pub compensation_ticks : AzOrchestrator → ℕ → Exec (Unit {0})
unfolding run_compensation
compensation_ticks o zero = pure tt
compensation_ticks o (suc n) = let rest = compensation_ticks o n in run_compensation o >>= λ _. rest
