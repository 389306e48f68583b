-- ===== src/Az/Replay.antt =====
-- `ReplayTask` of internal/az/orchestrator/orchestrator.go.
use vpc_workflow_demo.Prelude.{String, Bool, if◌then◌else◌, true, ◌=?◌, false, not, ◌&&◌, ◌+++◌}
use vpc_workflow_demo.World.{
  Result, TaskDetail, Exec, ok, ◌>>=◌, TaskState, or_wrap, ask, err, raise, attempt, task_info,
  fail, run_task, ◌>>◌, pure,
}
use vpc_workflow_demo.Models.{
  Task, resource_type, vpc, is_failed, ResourceStatus, subnet, pccn, task_status_text,
}
use vpc_workflow_demo.Dao.Table
use vpc_workflow_demo.Dao.Tasks
use vpc_workflow_demo.Workflow.Manager.{requeue_task}
use vpc_workflow_demo.Az.Orchestrator.{AzOrchestrator, workflow_mgr, resolve_queue_name}

unfoldable pub reset_resource_status : String → String → Exec (Unit {0})
reset_resource_status rt id =
    if rt =? resource_type vpc
    then (Table.store vpc).update_status id ResourceStatus.creating ""
    else if rt =? resource_type subnet
    then (Table.store subnet).update_status id ResourceStatus.creating ""
    else if rt =? resource_type pccn
    then (Table.store pccn).update_status id ResourceStatus.creating ""
    else raise (fail ("不支持的资源类型: " +++ rt))

-- The states from which the broker can run its own copy of the task again.
abbrev pub can_run_again : Result TaskDetail → Bool
can_run_again (ok d) = is_stopped d.state
  where
    is_stopped : TaskState → Bool
    is_stopped TaskState.retry = true
    is_stopped TaskState.failed = true
    is_stopped TaskState.scheduled = true
    is_stopped _ = false
can_run_again (err _) = false

abbrev pub is_ok {ℓ} : {A : Type ℓ} → Result A → Bool
is_ok (ok _) = true
is_ok (err _) = false

-- Whether the broker has run its copy again.
unfoldable pub run_again : AzOrchestrator → Task → Exec Bool
run_again o t = do
  env ← ask
  let queue = resolve_queue_name o t.device_type t.priority
  if not (t.asynq_task_id =? "") && (env.is_task_reader && env.is_task_controller)
      then (do
        detail ← attempt (task_info queue t.asynq_task_id)
        if can_run_again detail
            then (do r ← attempt (run_task queue t.asynq_task_id); pure (is_ok r))
            else pure false)
      else pure false

unfoldable pub replay_task : AzOrchestrator → String → Exec (Unit {0})
unfolding run_again reset_resource_status
replay_task o id = do
  t ← or_wrap "获取任务失败" (Tasks.get_by_id id)
  if not (is_failed t.status)
      then raise (fail ("任务状态不是failed，无法重做 (当前状态: " +++ (task_status_text t.status +++ ")")))
      else do
        reset_resource_status t.resource_type t.resource_id
        again ← run_again o t
        if again
            then Tasks.update_queued t.id t.asynq_task_id
            else or_wrap "重做任务失败" (requeue_task (workflow_mgr o) t)
