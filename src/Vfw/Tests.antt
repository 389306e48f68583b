-- ===== src/Vfw/Tests.antt =====
-- A firewall policy whose step is with the broker, and the theorems at that state.
use vpc_workflow_demo.Decimal.{pos}
use vpc_workflow_demo.Prelude.{
  ◌≡◌, refl, some, [], ◌∷◌, find_where, select, arith, All, count_where,
}
use vpc_workflow_demo.Models.{
  FirewallPolicy, PolicyRequest, ResourceStatus, Task, TaskStatus, Kind, vpc, subnet, pccn,
  firewall_policy,
}
use vpc_workflow_demo.World.{World, Result, ok}
use vpc_workflow_demo.Dao.Table
use vpc_workflow_demo.Workflow.Manager.{
  step_message, resource_store, find_store, register_resource_store, new_manager,
}
use vpc_workflow_demo.Workflow.Reply.{handle_reply}
use vpc_workflow_demo.Workflow.Run.{InStep, IsKnown, answer_of}
use vpc_workflow_demo.Workflow.Run.Completes.{HasRun}
use vpc_workflow_demo.Az.Compensation.{compensate_resource}
use vpc_workflow_demo.Az.Compensated.{HasStatus, RowStatus}
use vpc_workflow_demo.Az.Tests.{zone, env, step_task, succeeded}
use vpc_workflow_demo.Vfw.Orchestrator.{
  workflow_mgr, vfw_routes, delete_policy, build_policy_task_params,
}
use vpc_workflow_demo.Vfw.Compensation.{compensate_policy, compensation_ticks}
use vpc_workflow_demo.Vfw.Compensated.{vfw_compensation_ticks-HasStatus}
use vpc_workflow_demo.Vfw.Agrees.{compensate_policy-compensate_resource}
use vpc_workflow_demo.Vfw.Deleted.{delete_policy-HasRun}

abbrev web_request : PolicyRequest
web_request = record {
  policy_name = "web";
  source_zone = "out";
  dest_zone = "in";
  source_ip = "10.0.1.5";
  dest_ip = "10.0.2.5";
  source_port = "any";
  dest_port = "443";
  protocol = "tcp";
  action = "allow";
  description = "";
  region = "cn";
  az = "a";
}

abbrev policy_in : ResourceStatus → FirewallPolicy
policy_in st = record {
  id = "web-id";
  name = "web";
  region = "cn";
  az = "a";
  status = st;
  error_message = "";
  total_tasks = 1;
  completed_tasks = 0;
  failed_tasks = 0;
  created_at = 4;
  updated_at = 6;
  attrs = record {
    source_zone = "out";
    dest_zone = "in";
    source_ip = "10.0.1.5";
    dest_ip = "10.0.2.5";
    source_port = "any";
    dest_port = "443";
    protocol = "tcp";
    action = "allow";
    description = "";
  };
}

abbrev web_task : Task
web_task = record (step_task "t1" 1 TaskStatus.queued) {
  resource_type = "firewall_policy";
  resource_id = "web-id";
  task_type = "create_firewall_policy";
  task_params = build_policy_task_params web_request;
  device_type = "firewall";
}

abbrev with_policy : ResourceStatus → World
with_policy st = record {
  calls = 9;
  rows = record { vpcs = []; subnets = []; pccns = []; policies = policy_in st ∷ [] };
  tasks = web_task ∷ [];
  published = [];
}

creating_world-InStep :
    InStep "web-id" firewall_policy 1 [] web_task []
      (policy_in ResourceStatus.creating)
      (with_policy ResourceStatus.creating)
unfolding select find_where Table.table
creating_world-InStep = record {
  steps = refl;
  unique = (tt, tt);
  completed = tt;
  fresh = refl;
  waiting = tt;
  numbered = (refl, tt);
  size = refl;
  owned = ((refl, refl), tt);
  found_row = refl;
}

policy-IsKnown : IsKnown (workflow_mgr zone) "web-id" firewall_policy 1
unfolding workflow_mgr resource_store find_store register_resource_store new_manager
policy-IsKnown = record { known = refl; named = refl; bounded = omega arith }

abbrev deleting : Result (Unit {0}) × World
deleting = delete_policy zone "web" env (with_policy ResourceStatus.creating)

abbrev answering : Result (Unit {0}) × World
answering =
    handle_reply (workflow_mgr zone)
      (some (answer_of (step_message (workflow_mgr zone) web_task (pos 1)) succeeded)) env
      deleting.1

delete_policy-HasRun_example :
    (deleting.0 ≡ ok tt)
    × ((gone : FirewallPolicy) × (find_where
            (Table.has_id "web-id")
            (Table.table firewall_policy deleting.1)
          ≡ some gone)
        × (gone.status ≡ ResourceStatus.deleted))
    × (answering.0 ≡ ok tt)
    × HasRun "web-id" firewall_policy 1 (policy_in ResourceStatus.creating) answering.1
unfolding find_where
delete_policy-HasRun_example =
    delete_policy-HasRun zone (workflow_mgr zone) "web" 1 env [] web_task
      (policy_in ResourceStatus.creating) (with_policy ResourceStatus.creating) succeeded
      policy-IsKnown (vfw_routes zone) (record { no_fault = λ n. refl }) creating_world-InStep refl
      refl

compensate_policy-compensate_resource_example :
    compensate_policy zone
      (policy_in ResourceStatus.creating)
      env
      (with_policy ResourceStatus.creating)
    ≡ compensate_resource zone firewall_policy "web-id" ResourceStatus.creating 6 1 env
        (with_policy ResourceStatus.creating)
unfolding count_where
compensate_policy-compensate_resource_example =
    compensate_policy-compensate_resource zone (policy_in ResourceStatus.creating) env
      (with_policy ResourceStatus.creating) (omega arith) (omega arith)

deleted-HasStatus : HasStatus "web-id" ResourceStatus.deleted (with_policy ResourceStatus.deleted)
unfolding Table.table
deleted-HasStatus = record { in_tables = rows }
  where
    rows :
        (k : Kind)
        → All
            (RowStatus "web-id" ResourceStatus.deleted k)
            (Table.table k (with_policy ResourceStatus.deleted))
    rows vpc = tt
    rows subnet = tt
    rows pccn = tt
    rows firewall_policy = (λ i. refl, tt)

vfw_compensation_ticks-HasStatus_example :
    HasStatus "web-id" ResourceStatus.deleted
      (compensation_ticks zone 2 env (with_policy ResourceStatus.deleted)).1
vfw_compensation_ticks-HasStatus_example =
    vfw_compensation_ticks-HasStatus zone 2 "web-id" ResourceStatus.deleted env
      (with_policy ResourceStatus.deleted) refl deleted-HasStatus
