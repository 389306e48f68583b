-- ===== src/Worker/Tests.antt =====
-- A VPC and a subnet whose workflows are run by workers, and the theorems at their states.
use vpc_workflow_demo.Prelude.{
  String, All, select, some, List, find_where, arith, [], ◌∷◌, refl, ◌≡◌,
}
use vpc_workflow_demo.World.{
  Result, Err, or_wrap, World, IsFaultless, Message, wrap_result, fail, db_exec, exec_unless, ok,
  pure, raise, ReplyPayload, error_text,
}
use vpc_workflow_demo.Models.{
  SubnetResource, subnet, SubnetRequest, Task, vpc, VpcRequest, TaskStatus, ResourceStatus,
}
use vpc_workflow_demo.Decimal.{pos, itoa, atoi, int_pred}
use vpc_workflow_demo.Dao.Table
use vpc_workflow_demo.Dao.Tasks
use vpc_workflow_demo.Workflow.Manager.{
  step_message, WorkflowStep, register_resource_store, new_manager, lookup, broker_publish,
}
use vpc_workflow_demo.Workflow.Submit.{submit_workflow, new_task}
use vpc_workflow_demo.Workflow.Begin.{made}
use vpc_workflow_demo.Workflow.Run.{InStep, IsKnown}
use vpc_workflow_demo.Workflow.Run.Completes.{HasRun}
use vpc_workflow_demo.Workflow.Submitted.{workflow}
use vpc_workflow_demo.Az.Orchestrator.{workflow_mgr}
use vpc_workflow_demo.Az.Stores.{workflow_mgr-knows, workflow_mgr-routes}
use vpc_workflow_demo.Az.Create.{
  step, build_vpc_task_params, build_subnet_task_params, vpc_workflow,
}
use vpc_workflow_demo.Az.Tests.{zone, env, vpc_in, step_task}
use vpc_workflow_demo.Worker.Reply.{
  Context, reply_message, retry_context, retries_of, publish_failure_reply, publish_reply,
  publish_to, publish_built, build_reply_payload, payload_with, metadata_int, parsed_int,
}
use vpc_workflow_demo.Worker.Params.{
  with_params, run_decoded, decode, subnet_params, text_at, value_at, as_text,
}
use vpc_workflow_demo.Queue.{reply_queue_name}
use vpc_workflow_demo.Worker.Vpc.{create_subnet_on_switch, create_subnet}
use vpc_workflow_demo.Worker.Table.{handler_for, registered, find_handler}
use vpc_workflow_demo.Worker.Outcome.{HandlerOutcome, handler-HandlerOutcome}
use vpc_workflow_demo.Worker.Loop.{rounds, work, manage}
use vpc_workflow_demo.Worker.Served.{Served, vpc_workflow-Served}
use vpc_workflow_demo.Worker.Complete.{submit_workflow-rounds}
use vpc_workflow_demo.Worker.Refused.{refused-failed}

-- The third try of a task that may be tried three times.
abbrev last_try : Context
last_try = record { retry_count = some 3; max_retry = some 3; marshal = λ _. "{}" }

abbrev calm : IsFaultless env
calm = record { no_fault = λ n. refl }

abbrev shop_request : VpcRequest
shop_request = record {
  vpc_id = "shop-id";
  vpc_name = "shop";
  region = "cn";
  vrf_name = "v";
  vlan_id = 7;
  firewall_zone = "z";
}

abbrev vpc_step : String → String → String → WorkflowStep
vpc_step task_type name device = step 3 task_type name device (build_vpc_task_params shop_request)

abbrev vpc_steps : List WorkflowStep
vpc_steps =
    vpc_step "create_vlan_subinterface" "创建VLAN子接口" "switch"
    ∷ (vpc_step "create_firewall_zone" "创建防火墙安全区域" "firewall" ∷ [])

abbrev first_step : WorkflowStep
first_step = vpc_step "create_vrf_on_switch" "创建VRF" "switch"

-- The VPC before its workflow is submitted.
abbrev fresh_vpc : World
fresh_vpc = record {
  calls = 9;
  rows = record {
    vpcs = vpc_in ResourceStatus.pending 0 0 ∷ [];
    subnets = [];
    pccns = [];
    policies = [];
  };
  tasks = [];
  published = [];
}

vpc_workflow-Served_example :
    All (Served last_try env) (vpc_workflow zone shop_request "shop-id").steps
vpc_workflow-Served_example = vpc_workflow-Served last_try env calm zone shop_request "shop-id" refl

zone-IsKnown : IsKnown (workflow_mgr zone) "shop-id" vpc 3
zone-IsKnown = record {
  known = workflow_mgr-knows zone vpc (λ h. ground arith);
  named = refl;
  bounded = omega arith;
}

abbrev submission : Result String × World
submission =
    submit_workflow (workflow_mgr zone) (workflow vpc "shop-id" "a" (first_step ∷ vpc_steps)) env
      fresh_vpc

abbrev worked : Result (Unit {0}) × World
worked =
    rounds (workflow_mgr zone) last_try ("switch" ∷ ("switch" ∷ ("firewall" ∷ []))) env submission.1

submit_workflow-rounds_example :
    (submission.0 ≡ ok "shop-id")
    × (worked.0 ≡ ok tt)
    × HasRun "shop-id" vpc 3 (vpc_in ResourceStatus.pending 0 0) worked.1
unfolding select find_where Table.table made Tasks.stamp new_task itoa workflow_mgr
    register_resource_store new_manager reply_queue_name vpc_workflow
submit_workflow-rounds_example =
    submit_workflow-rounds (workflow_mgr zone) last_try env vpc "shop-id" "a" first_step vpc_steps
      fresh_vpc (vpc_in ResourceStatus.pending 0 0) calm zone-IsKnown (workflow_mgr-routes zone)
      refl ((refl, (refl, tt)), ((refl, tt), (tt, tt))) refl refl
      (vpc_workflow-Served last_try env calm zone shop_request "shop-id" refl)

abbrev net_request : SubnetRequest
net_request = record {
  subnet_name = "net";
  vpc_name = "shop";
  region = "cn";
  az = "a";
  cidr = "10.0.99.0/24";
}

abbrev net_task : Task
net_task = record (step_task "t1" 1 TaskStatus.queued) {
  resource_type = "subnet";
  resource_id = "net-id";
  task_type = "create_subnet_on_switch";
  task_params = build_subnet_task_params net_request;
}

abbrev net_row : SubnetResource
net_row = record {
  id = "net-id";
  name = "net";
  region = "cn";
  az = "a";
  status = ResourceStatus.creating;
  error_message = "";
  total_tasks = 1;
  completed_tasks = 0;
  failed_tasks = 0;
  created_at = 4;
  updated_at = 6;
  attrs = record { vpc_name = "shop"; cidr = "10.0.99.0/24" };
}

abbrev net_message : Message
net_message = step_message (workflow_mgr zone) net_task (pos 1)

-- The subnet's first step is with the broker.
abbrev net_sent : World
net_sent = record {
  calls = 9;
  rows = record { vpcs = []; subnets = net_row ∷ []; pccns = []; policies = [] };
  tasks = net_task ∷ [];
  published = net_message ∷ [];
}

net-IsKnown : IsKnown (workflow_mgr zone) "net-id" subnet 1
net-IsKnown = record {
  known = workflow_mgr-knows zone subnet (λ h. ground arith);
  named = refl;
  bounded = omega arith;
}

net-InStep : InStep "net-id" subnet 1 [] net_task [] net_row net_sent
unfolding select find_where Table.table
net-InStep = record {
  steps = refl;
  unique = (tt, tt);
  completed = tt;
  fresh = refl;
  waiting = tt;
  numbered = (refl, tt);
  size = refl;
  owned = ((refl, refl), tt);
  found_row = refl;
}

abbrev conflict : Err
conflict = fail "CIDR冲突: 10.0.99.0/24 在VPC shop 中已存在"

abbrev refusal : Result (Unit {0}) × World
refusal = manage (workflow_mgr zone) env (work last_try "switch" env net_sent).1

refused-failed_example :
    (r : ReplyPayload) × (refusal.1.published
      ≡ net_message ∷ (reply_message net_message (workflow_mgr zone).reply_queue_name r ∷ []))
    × ((after : SubnetResource) × (find_where (Table.has_id "net-id") (Table.table subnet refusal.1)
          ≡ some after)
        × (after.status ≡ ResourceStatus.failed)
        × (after.error_message ≡ error_text conflict)
        × (after.failed_tasks ≡ 1)
        × (after.completed_tasks ≡ 0))
unfolding workflow_mgr register_resource_store new_manager reply_queue_name handler_for registered
    find_handler create_subnet_on_switch create_subnet with_params run_decoded decode subnet_params
    text_at value_at as_text build_subnet_task_params step_message publish_failure_reply
    publish_reply publish_to publish_built build_reply_payload payload_with metadata_int parsed_int
    lookup retry_context retries_of atoi itoa int_pred or_wrap wrap_result broker_publish db_exec
    exec_unless pure raise
refused-failed_example =
    refused-failed (workflow_mgr zone) "net-id" subnet 1 last_try env [] net_task [] net_row
      net_sent create_subnet_on_switch conflict net-IsKnown refl calm net-InStep refl refl refl refl

handler-HandlerOutcome_example :
    HandlerOutcome last_try net_message net_sent
      (create_subnet_on_switch last_try net_message env net_sent)
unfolding handler_for registered find_handler
handler-HandlerOutcome_example =
    handler-HandlerOutcome "switch" "create_subnet_on_switch" create_subnet_on_switch last_try
      net_message env net_sent refl
