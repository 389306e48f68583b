-- ===== src/Workflow/Submit.antt =====
-- `SubmitWorkflow` of internal/orchestration/workflow.go.
use vpc_workflow_demo.Decimal.{ℤ, pos}
use vpc_workflow_demo.Models.{Task, TaskStatus, ResourceStatus}
use vpc_workflow_demo.Prelude.{
  ℕ, List, Option, String, ◌∷◌, if◌then◌else◌, ◌+++◌, ◌==◌, length, none, some, [], ◌+◌,
}
use vpc_workflow_demo.World.{
  Exec, pure, raise, Err, fail, ◌>>◌, or_wrap, ignore, error_text, wrap, ◌>>=◌, new_uuid, attempt,
  ok, err,
}
use vpc_workflow_demo.Dao.Tasks
use vpc_workflow_demo.Dao.Table.{ResourceStore}
use vpc_workflow_demo.Workflow.Manager.{
  Manager, WorkflowDef, WorkflowStep, publish_task, resource_store,
}

-- The tasks of a new workflow, numbered from `order`.
unfoldable pub new_task : WorkflowDef → WorkflowStep → ℕ → String → Task
new_task def step order id = record {
  id = id;
  resource_type = def.resource_type;
  resource_id = def.resource_id;
  task_type = step.task_type;
  task_name = step.task_name;
  task_order = order;
  task_params = step.payload;
  status = TaskStatus.pending;
  priority = step.priority;
  device_type = step.device_type;
  asynq_task_id = "";
  result = "";
  error_message = "";
  retry_count = 0;
  max_retries = if step.max_retries == 0 then 3 else step.max_retries;
  az = def.az;
  created_at = 0;
  queued_at = none;
  started_at = none;
  completed_at = none;
  updated_at = 0;
}

unfoldable pub build_tasks : WorkflowDef → List WorkflowStep → ℕ → Exec (List Task)
unfolding new_task
build_tasks def [] order = pure []
build_tasks def (s ∷ ss) order = do
  id ← new_uuid
  rest ← build_tasks def ss (order + 1)
  pure (new_task def s order id ∷ rest)

-- The three writes on a first step that could not be published; their errors are dropped.
unfoldable pub abandon : ResourceStore → Task → String → Err → Exec String
abandon s t rid x = do
  ignore (Tasks.update_result t.id TaskStatus.failed "" (error_text x))
  ignore (s.increment_failed_tasks rid)
  ignore (s.update_status rid ResourceStatus.failed (error_text x))
  raise (wrap "发布首个step失败" x)

unfoldable pub publish_first : Manager → ResourceStore → WorkflowDef → Task → ℤ → Exec String
unfolding abandon
publish_first m s def t total = do
  published ← attempt (publish_task m t total)
  elim published [ ok _ ↦ pure def.resource_id | err x ↦ abandon s t def.resource_id x ]

unfoldable pub start : Manager → ResourceStore → WorkflowDef → List Task → Exec String
unfolding publish_first
start m s def [] = pure def.resource_id
start m s def (t ∷ ts) = do
  or_wrap "创建任务记录失败" (Tasks.batch_create (t ∷ ts))
  or_wrap "更新总任务数失败" (s.update_total_tasks def.resource_id (length (t ∷ ts)))
  or_wrap "更新资源状态失败" (s.update_status def.resource_id ResourceStatus.creating "")
  publish_first m s def t (pos (length (t ∷ ts)))

unfoldable pub submit_with : Manager → WorkflowDef → Option ResourceStore → Exec String
unfolding start
submit_with m def none = raise (fail ("resource store未注册: " +++ def.resource_type))
submit_with m def (some s) = do ts ← build_tasks def def.steps 1; start m s def ts

unfoldable pub submit_workflow : Manager → WorkflowDef → Exec String
unfolding submit_with resource_store
submit_workflow m def = elim def.steps [
  | [] ↦ raise (fail "workflow steps不能为空")
  | _ ∷ _ ↦ submit_with m def (resource_store m def.resource_type)
]
