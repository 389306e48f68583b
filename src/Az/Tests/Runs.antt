-- ===== src/Az/Tests/Runs.antt =====
-- A VPC with two steps that are answered one after the other.
use vpc_workflow_demo.Decimal.{pos, itoa}
use vpc_workflow_demo.World.{World, Result, ok}
use vpc_workflow_demo.Models.{vpc, Task, VpcResource, ResourceStatus, TaskStatus, Value}
use vpc_workflow_demo.Prelude.{select, ◌≡◌, ◌∷◌, find_where, arith, ◌++◌, [], refl, String, map}
use vpc_workflow_demo.Dao.Table
use vpc_workflow_demo.Dao.Tasks
use vpc_workflow_demo.Workflow.Manager.{step_message}
use vpc_workflow_demo.Workflow.Run.{InStep, IsKnown}
use vpc_workflow_demo.Workflow.Run.Completes.{answer_all, HasRun, answer_all-HasRun}
use vpc_workflow_demo.Az.Orchestrator.{workflow_mgr}
use vpc_workflow_demo.Az.Create.{step}
use vpc_workflow_demo.Workflow.Manager.{WorkflowStep}
use vpc_workflow_demo.Workflow.Submit.{submit_workflow, new_task}
use vpc_workflow_demo.Workflow.Begin.{made}
use vpc_workflow_demo.Workflow.Submitted.{workflow, rows_in, submit_workflow-HasRun}
use vpc_workflow_demo.Az.Stores.{workflow_mgr-knows, workflow_mgr-routes}
use vpc_workflow_demo.Az.Tests.{zone, env, started, step_task, vpc_in, succeeded}

abbrev first_task : Task
first_task = step_task "t1" 1 TaskStatus.queued

abbrev second_task : Task
second_task = step_task "t2" 2 TaskStatus.pending

abbrev sent : World
sent = record started { published = step_message (workflow_mgr zone) first_task (pos 2) ∷ [] }

abbrev new_row : VpcResource
new_row = vpc_in ResourceStatus.creating 0 0

sent-InStep : InStep "shop-id" vpc 2 [] first_task (second_task ∷ []) new_row sent
unfolding select find_where Table.table
sent-InStep = record {
  steps = refl;
  unique = ((refl, tt), (tt, tt));
  completed = tt;
  fresh = refl;
  waiting = (refl, tt);
  numbered = (refl, (refl, tt));
  size = refl;
  owned = ((refl, refl), ((refl, refl), tt));
  found_row = refl;
}

zone-IsKnown : IsKnown (workflow_mgr zone) "shop-id" vpc 2
zone-IsKnown = record {
  known = workflow_mgr-knows zone vpc (λ h. ground arith);
  named = refl;
  bounded = omega arith;
}

abbrev outcome : Result (Unit {0}) × World
outcome = answer_all (workflow_mgr zone) (succeeded ∷ (succeeded ∷ [])) env sent

answer_all-HasRun_example :
    (outcome.0 ≡ ok tt)
    × (outcome.1.published
        ≡ sent.published ++ step_message (workflow_mgr zone) second_task (pos 2) ∷ [])
    × HasRun "shop-id" vpc 2 new_row outcome.1
answer_all-HasRun_example =
    answer_all-HasRun (workflow_mgr zone) "shop-id" vpc 2 zone-IsKnown (workflow_mgr-routes zone)
      env (record { no_fault = λ n. refl }) (succeeded ∷ (succeeded ∷ [])) [] first_task
      (second_task ∷ []) new_row sent sent-InStep refl (refl, (refl, tt)) refl

-- The VPC before its workflow is submitted.
abbrev fresh_vpc : World
fresh_vpc = record started {
  rows = record {
    vpcs = vpc_in ResourceStatus.pending 0 0 ∷ [];
    subnets = [];
    pccns = [];
    policies = [];
  };
  tasks = [];
}

abbrev vrf_step : WorkflowStep
vrf_step = step 3 "create_vrf_on_switch" "创建VRF" "switch" (("vrf_name", Value.text "v") ∷ [])

abbrev zone_step : WorkflowStep
zone_step = step 3 "create_firewall_zone" "创建防火墙安全区域" "firewall" []

abbrev submission : Result String × World
submission =
    submit_workflow (workflow_mgr zone) (workflow vpc "shop-id" "a" (vrf_step ∷ (zone_step ∷ [])))
      env fresh_vpc

abbrev answered : Result (Unit {0}) × World
answered = answer_all (workflow_mgr zone) (succeeded ∷ (succeeded ∷ [])) env submission.1

submit_workflow-HasRun_example :
    (submission.0 ≡ ok "shop-id")
    × (answered.0 ≡ ok tt)
    × (answered.1.published
        ≡ map
            (λ t. step_message (workflow_mgr zone) t (pos 2))
            (rows_in env vpc "shop-id" "a" vrf_step (zone_step ∷ []) fresh_vpc))
    × HasRun "shop-id" vpc 2 (vpc_in ResourceStatus.pending 0 0) answered.1
unfolding select find_where Table.table made Tasks.stamp new_task itoa
submit_workflow-HasRun_example =
    submit_workflow-HasRun (workflow_mgr zone) env (record { no_fault = λ n. refl }) vpc "shop-id"
      "a" vrf_step (zone_step ∷ []) fresh_vpc (vpc_in ResourceStatus.pending 0 0)
      (succeeded ∷ (succeeded ∷ [])) zone-IsKnown (workflow_mgr-routes zone) ((refl, tt), (tt, tt))
      refl refl (refl, (refl, tt)) refl
