-- ===== src/Az/Tests/Failures.antt =====
-- A worker gives up on the first step of a VPC.
use vpc_workflow_demo.Decimal.{int_succ, atoi, itoa, int_pred}
use vpc_workflow_demo.Prelude.{find_where, ◌≡◌, some, true, [], refl}
use vpc_workflow_demo.Models.{VpcResource, ResourceStatus, vpc, TaskStatus}
use vpc_workflow_demo.World.{Result, Message, ReplyPayload, ReplyStatus, reply, World, ok, tick}
use vpc_workflow_demo.Dao.Table
use vpc_workflow_demo.Workflow.Manager.{
  metadata_context, resource_store, find_store, register_resource_store, new_manager, lookup,
  read_steps, step_message,
}
use vpc_workflow_demo.Workflow.Reply.{decode_reply, handle_reply}
use vpc_workflow_demo.Workflow.Metadata.{context_of}
use vpc_workflow_demo.Workflow.Failure.{Fails, handle_reply-failed}
use vpc_workflow_demo.Az.Orchestrator.{workflow_mgr}
use vpc_workflow_demo.Az.Tests.{zone, env, vpc_in, started, first_reply, step_task, succeeded}

abbrev gave_up : ReplyPayload
gave_up = record succeeded {
  status = ReplyStatus.failed;
  final_failure = true;
  error = "no such VRF";
}

abbrev bad_reply : Message
bad_reply = record first_reply { payload = reply gave_up }

abbrev new_row : VpcResource
new_row = vpc_in ResourceStatus.creating 0 0

bad_reply-Fails :
    Fails
      (workflow_mgr zone)
      bad_reply
      started
      (context_of (step_task "t1" 1 TaskStatus.queued) 2)
      vpc
      (step_task "t1" 1 TaskStatus.queued)
      gave_up
unfolding decode_reply resource_store workflow_mgr find_store register_resource_store new_manager
    find_where step_message metadata_context int_succ lookup read_steps atoi itoa int_pred
bad_reply-Fails = record {
  payload = refl;
  context = refl;
  known = refl;
  found = refl;
  fresh = refl;
  failed = refl;
  final = refl;
}

abbrev given_up : Result (Unit {0}) × World
given_up = handle_reply (workflow_mgr zone) (some bad_reply) env started

handle_reply-failed_example :
    (given_up.0 ≡ ok tt)
    × (given_up.1.published ≡ [])
    × ((after : VpcResource) × (find_where (Table.has_id "shop-id") (Table.table vpc given_up.1)
          ≡ some after)
        × (after.status ≡ ResourceStatus.failed)
        × (after.error_message ≡ "no such VRF")
        × (after.failed_tasks ≡ 1)
        × (after.completed_tasks ≡ 0))
    × ((handle_reply (workflow_mgr zone) (some bad_reply) env given_up.1).1 ≡ tick given_up.1)
unfolding find_where Table.table
handle_reply-failed_example =
    handle_reply-failed (workflow_mgr zone) bad_reply started
      (context_of (step_task "t1" 1 TaskStatus.queued) 2) vpc (step_task "t1" 1 TaskStatus.queued)
      gave_up new_row env env (record { no_fault = λ n. refl }) bad_reply-Fails refl
