-- ===== src/Az/Tests/Faults.antt =====
-- A reply that breaks off, and a deletion that is allowed.
use vpc_workflow_demo.Decimal.{int_succ, atoi, itoa, int_pred}
use vpc_workflow_demo.Models.{ResourceStatus, TaskStatus, vpc, pccn, PccnResource, VpcResource}
use vpc_workflow_demo.World.{
  db_query, Env, World, query_unless, tick, attempt, ask, http_get, or_wrap, wrap_result, db_exec,
  exec_unless, pure,
}
use vpc_workflow_demo.Prelude.{
  some, find_where, if◌then◌else◌, ◌≡◌, count_where, ◌==◌, [], none, refl, ◌∷◌, String, arith,
}
use vpc_workflow_demo.Dao.Table
use vpc_workflow_demo.Dao.Vpc
use vpc_workflow_demo.Workflow.Manager.{
  metadata_context, resource_store, find_store, register_resource_store, new_manager, lookup,
  read_steps, step_message,
}
use vpc_workflow_demo.Workflow.Reply.{decode_reply, handle_reply}
use vpc_workflow_demo.Workflow.Metadata.{context_of}
use vpc_workflow_demo.Workflow.Advance.{Answers}
use vpc_workflow_demo.Workflow.Lost.{handle_reply-lost}
use vpc_workflow_demo.Az.Orchestrator.{workflow_mgr, or_missing, missing_as}
use vpc_workflow_demo.Az.Delete.{delete_vpc, check_deletable, check_zone_policies, guard}
use vpc_workflow_demo.Dao.Pccn
use vpc_workflow_demo.Dao.Pccn.Conflict.{create-conflict}
use vpc_workflow_demo.Az.Compensation.{compensate_resource}
use vpc_workflow_demo.Az.Revived.{compensate_resource-delete_vpc}
use vpc_workflow_demo.Az.Deleted.{IsDeletable, delete_vpc-IsDeletable}
use vpc_workflow_demo.Az.Tests.{zone, env, at, vpc_in, started, first_reply, step_task, succeeded}

-- The third statement of the reply is lost.
abbrev failing : Env
failing = record env { fault = λ n. if n == 11 then some "connection reset" else none }

first_reply-Answers :
    Answers
      (workflow_mgr zone)
      first_reply
      started
      (context_of (step_task "t1" 1 TaskStatus.queued) 2)
      vpc
      (step_task "t1" 1 TaskStatus.queued)
      succeeded
unfolding decode_reply resource_store workflow_mgr find_store register_resource_store new_manager
    find_where step_message metadata_context int_succ lookup read_steps atoi itoa int_pred
first_reply-Answers = record {
  payload = refl;
  context = refl;
  known = refl;
  found = refl;
  fresh = refl;
  succeeds = refl;
}

abbrev broken_off : World
broken_off = (handle_reply (workflow_mgr zone) (some first_reply) failing started).1

handle_reply-lost_example :
    ((handle_reply (workflow_mgr zone) (some first_reply) env broken_off).1 ≡ tick broken_off)
    × (broken_off.published ≡ [])
    × (broken_off.rows ≡ started.rows)
handle_reply-lost_example =
    handle_reply-lost (workflow_mgr zone) first_reply started
      (context_of (step_task "t1" 1 TaskStatus.queued) 2) vpc (step_task "t1" 1 TaskStatus.queued)
      succeeded failing env "connection reset" first_reply-Answers refl refl refl

abbrev idle : World
idle = at (vpc_in ResourceStatus.running 2 0) TaskStatus.completed TaskStatus.completed

delete_vpc-IsDeletable_example : IsDeletable zone "shop" idle
unfolding delete_vpc or_missing missing_as Table.get_by_name Table.one Table.table db_query
    query_unless find_where check_deletable guard check_zone_policies Vpc.count_subnets count_where
    attempt ask http_get or_wrap wrap_result Table.store db_exec exec_unless pure
delete_vpc-IsDeletable_example = delete_vpc-IsDeletable zone "shop" env idle refl

compensate_resource-delete_vpc_example :
    (u : VpcResource) × (find_where
        (Table.has_id "shop-id")
        (delete_vpc zone "shop" env idle).1.rows.vpcs
      ≡ some u)
    × (u.status ≡ ResourceStatus.deleting)
    × ((x : VpcResource) × (find_where
            (Table.has_id "shop-id")
            (compensate_resource zone vpc u.id u.status u.updated_at u.total_tasks env
              (delete_vpc zone "shop" env idle).1).1.rows.vpcs
          ≡ some x)
        × (x.status ≡ ResourceStatus.running))
unfolding delete_vpc or_missing missing_as Table.get_by_name Table.one Table.table db_query
    query_unless find_where check_deletable guard check_zone_policies Vpc.count_subnets count_where
    attempt ask http_get or_wrap wrap_result Table.store db_exec exec_unless pure
compensate_resource-delete_vpc_example =
    compensate_resource-delete_vpc zone "shop" env env idle (vpc_in ResourceStatus.running 2 0) refl
      refl refl (omega arith) refl (record { no_fault = λ n. refl })

abbrev connection : String → PccnResource
connection id = record {
  id = id;
  name = "link";
  region = "cn";
  az = "a";
  status = ResourceStatus.failed;
  error_message = "";
  total_tasks = 2;
  completed_tasks = 0;
  failed_tasks = 1;
  created_at = 4;
  updated_at = 6;
  attrs = record {
    vpc_name = "shop";
    peer_vpc_name = "shop2";
    peer_vpc_region = "eu";
    subnets = [];
  };
}

abbrev linked : World
linked = record idle {
  rows = record { vpcs = []; subnets = []; pccns = connection "old" ∷ []; policies = [] };
}

create-conflict_example :
    Table.update_row pccn "new"
      (Table.add_completed 7)
      (Pccn.create (connection "new") env linked).1
    ≡ (Pccn.create (connection "new") env linked).1
unfolding find_where
create-conflict_example =
    create-conflict (connection "new") (connection "old") env linked (Table.add_completed 7) refl
      (refl, tt)
