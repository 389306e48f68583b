-- ===== src/Vfw/Orchestrator.antt =====
-- The state and the methods of internal/az/vfw/orchestrator/orchestrator.go, but for its loop. The code
-- repeats that of the AZ orchestrator where the models of that one are used.
use vpc_workflow_demo.Prelude.{
  ℕ, String, List, [], ◌∷◌, Option, ◌+++◌, ◌=?◌, ◌≡◌, false, append_not_empty,
}
use vpc_workflow_demo.Models.{
  Params, Value, FirewallPolicy, PolicyAttrs, Task, ResourceStatus, CreateResponse, PolicyRequest,
  resource_type, firewall_policy,
}
use vpc_workflow_demo.World.{Exec, Message, new_uuid, or_wrap, pure, ◌>>=◌, ◌>>◌}
use vpc_workflow_demo.Dao.Policy
use vpc_workflow_demo.Dao.Tasks
use vpc_workflow_demo.Workflow.Manager.{
  Manager, WorkflowStep, WorkflowDef, new_manager, register_resource_store,
}
use vpc_workflow_demo.Workflow.Submit.{submit_workflow}
use vpc_workflow_demo.Workflow.Reply.{handle_reply}
use vpc_workflow_demo.Queue.{
  priority_suffix, priority_queue_name, reply_queue_name, device_type_firewall,
}
use vpc_workflow_demo.Az.Orchestrator.{AzOrchestrator, or_missing, respond}
use vpc_workflow_demo.Az.Status.{StatusResponse, progress_of, enrich_task_status}

-- Its region, its zone and the broker's normal priority.
abbrev pub VfwOrchestrator : Type 0
VfwOrchestrator = AzOrchestrator

unfoldable pub workflow_mgr : VfwOrchestrator → Manager
unfolding new_manager register_resource_store
workflow_mgr o =
    register_resource_store (resource_type firewall_policy) Policy.store
      (new_manager (priority_queue_name o.region o.az) (reply_queue_name o.region o.az "vfw"))

unfoldable pub handle_reply_task : VfwOrchestrator → Option Message → Exec (Unit {0})
handle_reply_task o msg = handle_reply (workflow_mgr o) msg

unfoldable pub build_policy_task_params : PolicyRequest → Params
build_policy_task_params req =
    ("policy_name", Value.text req.policy_name)
    ∷ ("source_zone", Value.text req.source_zone)
    ∷ ("dest_zone", Value.text req.dest_zone)
    ∷ ("source_ip", Value.text req.source_ip)
    ∷ ("dest_ip", Value.text req.dest_ip)
    ∷ ("source_port", Value.text req.source_port)
    ∷ ("dest_port", Value.text req.dest_port)
    ∷ ("protocol", Value.text req.protocol)
    ∷ ("action", Value.text req.action)
    ∷ ("description", Value.text req.description)
    ∷ ("region", Value.text req.region)
    ∷ ("az", Value.text req.az)
    ∷ []

unfoldable pub policy_row : VfwOrchestrator → PolicyRequest → String → FirewallPolicy
policy_row o req id = record {
  id = id;
  name = req.policy_name;
  region = o.region;
  az = o.az;
  status = ResourceStatus.pending;
  error_message = "";
  total_tasks = 0;
  completed_tasks = 0;
  failed_tasks = 0;
  created_at = 0;
  updated_at = 0;
  attrs = record {
    source_zone = req.source_zone;
    dest_zone = req.dest_zone;
    source_ip = req.source_ip;
    dest_ip = req.dest_ip;
    source_port = req.source_port;
    dest_port = req.dest_port;
    protocol = req.protocol;
    action = req.action;
    description = req.description;
  };
}

unfoldable pub policy_step : VfwOrchestrator → PolicyRequest → WorkflowStep
unfolding build_policy_task_params
policy_step o req = record {
  task_type = "create_firewall_policy";
  task_name = "创建防火墙策略";
  device_type = device_type_firewall;
  priority = o.priority_normal;
  max_retries = 3;
  payload = build_policy_task_params req;
}

unfoldable pub policy_workflow : VfwOrchestrator → PolicyRequest → String → WorkflowDef
unfolding policy_step
policy_workflow o req id = record {
  resource_type = resource_type firewall_policy;
  resource_id = id;
  az = o.az;
  steps = policy_step o req ∷ [];
}

unfoldable pub create_policy : VfwOrchestrator → PolicyRequest → Exec CreateResponse
unfolding policy_row policy_workflow
create_policy o req = respond "防火墙策略创建工作流已启动" (do
  id ← new_uuid
  or_wrap "创建策略记录失败" (Policy.create (policy_row o req id))
  workflow_id ← or_wrap "提交工作流失败" (submit_workflow (workflow_mgr o) (policy_workflow o req id))
  pure (id, workflow_id))

unfoldable pub get_policy_status : VfwOrchestrator → String → Exec (StatusResponse PolicyAttrs)
get_policy_status o name = do
  r ← or_missing ("策略不存在: " +++ name) "查询策略失败" (Policy.get_by_name name o.az)
  ts ← or_wrap "查询任务列表失败" (Tasks.get_by_resource_id r.id)
  pure (record { row = r; progress = progress_of r; tasks = ts })

-- A policy is deleted whatever its status is.
unfoldable pub delete_policy : VfwOrchestrator → String → Exec (Unit {0})
delete_policy o name = do
  r ← or_missing ("策略不存在: " +++ name) "查询策略失败" (Policy.get_by_name name o.az)
  or_wrap "更新策略状态失败" (Policy.store.update_status r.id ResourceStatus.deleted "")

unfoldable pub list_policies : VfwOrchestrator → Exec (List FirewallPolicy)
list_policies o = Policy.list_all

unfoldable pub get_policy_by_id : VfwOrchestrator → String → Exec FirewallPolicy
get_policy_by_id o id = Policy.get_by_id id

unfoldable pub count_policies_by_zone : VfwOrchestrator → String → Exec ℕ
count_policies_by_zone o zone = Policy.count_by_zone zone

unfoldable pub get_task_by_id : VfwOrchestrator → String → Exec Task
get_task_by_id o id = do t ← or_wrap "查询任务失败" (Tasks.get_by_id id); enrich_task_status o t

-- No queue name of the zone is empty.
pub vfw_routes :
    (o : VfwOrchestrator) (d : String) (p : ℕ) → ((workflow_mgr o).queue_resolver d p =? "") ≡ false
unfolding workflow_mgr register_resource_store new_manager priority_queue_name
vfw_routes o d p =
    append_not_empty "t" "asks:"
      (o.region +++ (":" +++ (o.az +++ (":" +++ (d +++ priority_suffix p)))))
