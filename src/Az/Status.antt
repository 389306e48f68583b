-- ===== src/Az/Status.antt =====
-- The status queries of internal/az/orchestrator/orchestrator.go.
use vpc_workflow_demo.Prelude.{String, ◌-◌, List, ◌+++◌, if◌then◌else◌, ◌=?◌, ◌||◌, not}
use vpc_workflow_demo.World.{
  TaskState, Exec, Result, TaskDetail, ◌>>=◌, or_wrap, ask, err, pure, ok, attempt, task_info,
}
use vpc_workflow_demo.Models.{
  Row, Kind, Task, TaskStatus, ResourceProgress, PccnAttrs, VpcAttrs, Attrs, SubnetAttrs, subnet,
  vpc, pccn,
}
use vpc_workflow_demo.Dao.Table
use vpc_workflow_demo.Dao.Tasks
use vpc_workflow_demo.Az.Orchestrator.{AzOrchestrator, or_missing, resolve_queue_name}

-- `VPCStatusResponse`, `SubnetStatusResponse` and `PCCNStatusResponse`: the row, what is computed
-- from its counters, and its tasks.
pub record StatusResponse (A : Type 0) : Type 0 where
  pub row : Row A
  pub progress : ResourceProgress
  pub tasks : List Task

-- `maxInt(total-completed-failed, 0)`: subtraction on ℕ stops at 0 as `maxInt` does.
unfoldable pub progress_of : {A : Type 0} → Row A → ResourceProgress
progress_of r = record {
  total = r.total_tasks;
  completed = r.completed_tasks;
  failed = r.failed_tasks;
  pending = r.total_tasks - r.completed_tasks - r.failed_tasks;
}

status_by_name :
    (k : Kind) → AzOrchestrator → String → String → String → Exec (StatusResponse (Attrs k))
unfolding progress_of
status_by_name k o absent broken name = do
  r ← or_missing (absent +++ (": " +++ name)) broken (Table.get_by_name k name o.az)
  ts ← or_wrap "查询任务列表失败" (Tasks.get_by_resource_id r.id)
  pure (record { row = r; progress = progress_of r; tasks = ts })

unfoldable pub get_vpc_status : AzOrchestrator → String → Exec (StatusResponse VpcAttrs)
unfolding status_by_name
get_vpc_status o name = status_by_name vpc o "VPC不存在" "查询VPC失败" name

unfoldable pub get_subnet_status : AzOrchestrator → String → Exec (StatusResponse SubnetAttrs)
unfolding status_by_name
get_subnet_status o name = status_by_name subnet o "子网不存在" "查询子网失败" name

unfoldable pub get_pccn_status : AzOrchestrator → String → Exec (StatusResponse PccnAttrs)
unfolding status_by_name
get_pccn_status o name = status_by_name pccn o "PCCN不存在" "查询PCCN失败" name

abbrev pub map_task_state : TaskState → TaskStatus → TaskStatus
map_task_state TaskState.pending fallback = TaskStatus.queued
map_task_state TaskState.scheduled fallback = TaskStatus.queued
map_task_state TaskState.retry fallback = TaskStatus.queued
map_task_state TaskState.active fallback = TaskStatus.running
map_task_state TaskState.completed fallback = TaskStatus.completed
map_task_state TaskState.failed fallback = TaskStatus.failed
map_task_state (TaskState.other s) fallback = fallback

-- The broker's view of a task goes over that of the table.
enriched : Task → Result TaskDetail → Task
enriched t (err _) = t
enriched t (ok d) = record t {
  status = map_task_state d.state t.status;
  retry_count = d.retried;
  max_retries = d.max_retry;
  error_message = if d.last_error =? "" then t.error_message else d.last_error;
}

unfoldable pub enrich_task_status : AzOrchestrator → Task → Exec Task
unfolding enriched
enrich_task_status o t = do
  env ← ask
  if (t.asynq_task_id =? "") || not env.is_task_reader then pure t else do
    detail ← attempt (task_info (resolve_queue_name o t.device_type t.priority) t.asynq_task_id)
    pure (enriched t detail)

unfoldable pub get_task_by_id : AzOrchestrator → String → Exec Task
get_task_by_id o id = do t ← or_wrap "查询任务失败" (Tasks.get_by_id id); enrich_task_status o t
