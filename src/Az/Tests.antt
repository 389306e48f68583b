-- ===== src/Az/Tests.antt =====
-- A run of the services of one availability zone, and the theorems at its states.
mod Runs
mod Failures
mod Faults
mod Queues
mod Passes
use vpc_workflow_demo.Az.Orchestrator.{workflow_mgr}
use vpc_workflow_demo.Az.Stores.{workflow_mgr-IsBacked}
use vpc_workflow_demo.Dao.Table
use vpc_workflow_demo.Workflow.Manager.{
  step_message, metadata_context, resource_store, find_store, register_resource_store, new_manager,
  lookup, read_steps,
}
use vpc_workflow_demo.Workflow.Reply.{decode_reply}
use vpc_workflow_demo.Workflow.Metadata.{context_of, metadata_context-step_message}
use vpc_workflow_demo.Workflow.Once.{handle_reply-once}
use vpc_workflow_demo.Dao.Tasks
use vpc_workflow_demo.Queue.{priority_queue_name}
use vpc_workflow_demo.Workflow.Reply.{handle_reply}
use vpc_workflow_demo.Workflow.Counters.{Counted, completed_of}
use vpc_workflow_demo.Workflow.Counters.Replies.{handle_reply-Counted}
use vpc_workflow_demo.Az.Orchestrator.{AzOrchestrator}
use vpc_workflow_demo.Decimal.{pos, itoa, int_succ, atoi, int_pred}
use vpc_workflow_demo.World.{
  Env, World, ReplyPayload, Message, reply, ReplyStatus, err, external, ok, tick,
}
use vpc_workflow_demo.Models.{
  ResourceStatus, VpcResource, TaskStatus, Kind, Task, Value, vpc, subnet, pccn, firewall_policy,
}
use vpc_workflow_demo.Prelude.{
  [], ◌+++◌, false, none, ◌+◌, ◌∷◌, some, refl, String, count_where, ℕ, All, ◌≤◌, arith, ◌≡◌,
  find_where, order_by, select, update_where,
}

abbrev pub zone : AzOrchestrator
zone = record { region = "cn"; az = "a"; priority_normal = 3 }

-- Every call succeeds, and the identifiers count the calls.
abbrev pub env : Env
env = record {
  uuid = λ n. "u" +++ itoa (pos n);
  clock = λ n. 100 + n;
  fault = λ _. none;
  broker_id = λ n. "b" +++ itoa (pos n);
  task_info = λ _ _ _. err (external "no inspector");
  run_task = λ _ _ _. none;
  http_get = λ _ _. ok (record { status_code = 404; count = none });
  getenv = λ _. "";
  is_task_reader = false;
  is_task_controller = false;
}

abbrev no_rows_yet : World
no_rows_yet = record {
  calls = 0;
  rows = record { vpcs = []; subnets = []; pccns = []; policies = [] };
  tasks = [];
  published = [];
}

abbrev pub succeeded : ReplyPayload
succeeded = record {
  task_type = "";
  resource_id = "";
  resource_type = "vpc";
  step_index = pos 0;
  total_steps = pos 3;
  retry_count = 0;
  max_retries = 3;
  final_failure = false;
  status = ReplyStatus.success;
  result = "{}";
  error = "";
}

-- The reply to a message, with its metadata.
abbrev pub answer_to : Message → Message
answer_to msg = record msg { payload = reply succeeded }

-- A VPC whose first step is with the broker.
abbrev pub step_task : String → ℕ → TaskStatus → Task
step_task id order status = record {
  id = id;
  resource_type = "vpc";
  resource_id = "shop-id";
  task_type = "create_vrf_on_switch";
  task_name = "创建VRF";
  task_order = order;
  task_params = ("vrf_name", Value.text "v") ∷ [];
  status = status;
  priority = 3;
  device_type = "switch";
  asynq_task_id = "";
  result = "";
  error_message = "";
  retry_count = 0;
  max_retries = 3;
  az = "a";
  created_at = 5;
  queued_at = none;
  started_at = none;
  completed_at = none;
  updated_at = 5;
}

abbrev pub vpc_in : ResourceStatus → ℕ → ℕ → VpcResource
vpc_in status completed_tasks failed_tasks = record {
  id = "shop-id";
  name = "shop";
  region = "cn";
  az = "a";
  status = status;
  error_message = "";
  total_tasks = 2;
  completed_tasks = completed_tasks;
  failed_tasks = failed_tasks;
  created_at = 4;
  updated_at = 6;
  attrs = record { vrf_name = "v"; vlan_id = 7; firewall_zone = "z" };
}

abbrev pub at : VpcResource → TaskStatus → TaskStatus → World
at v first_status second_status = record {
  calls = 9;
  rows = record { vpcs = v ∷ []; subnets = []; pccns = []; policies = [] };
  tasks = step_task "t1" 1 first_status ∷ step_task "t2" 2 second_status ∷ [];
  published = [];
}

abbrev pub started : World
started = at (vpc_in ResourceStatus.creating 0 0) TaskStatus.queued TaskStatus.pending

abbrev pub first_reply : Message
first_reply =
    answer_to (step_message (workflow_mgr zone) (step_task "t1" 1 TaskStatus.queued) (pos 2))

started-Counted : Counted started
unfolding Table.table count_where
started-Counted = record { unique = ((refl, tt), (tt, tt)); all_rows = rows }
  where
    rows :
        (k : Kind)
        → All (λ r. r.completed_tasks ≤ completed_of r.id started.tasks) (Table.table k started)
    rows vpc = (omega arith, tt)
    rows subnet = tt
    rows pccn = tt
    rows firewall_policy = tt

handle_reply-Counted_example :
    Counted (handle_reply (workflow_mgr zone) (some first_reply) env started).1
handle_reply-Counted_example =
    handle_reply-Counted (workflow_mgr zone) (some first_reply) env started
      (workflow_mgr-IsBacked zone) started-Counted

metadata_context-step_message_example :
    metadata_context
      (step_message (workflow_mgr zone) (step_task "t1" 1 TaskStatus.queued) (pos 2)).metadata
    ≡ ok (context_of (step_task "t1" 1 TaskStatus.queued) 2)
metadata_context-step_message_example =
    metadata_context-step_message (workflow_mgr zone) (step_task "t1" 1 TaskStatus.queued) 2 refl
      refl (omega arith) (omega arith) (omega arith)

handle_reply-once_example :
    ((handle_reply (workflow_mgr zone) (some first_reply) env started).0 ≡ ok tt)
    × ((handle_reply (workflow_mgr zone) (some first_reply) env started).1.published
        ≡ step_message (workflow_mgr zone) (step_task "t2" 2 TaskStatus.pending) (pos 2) ∷ [])
    × ((handle_reply
          (workflow_mgr zone)
          (some first_reply)
          env
          (handle_reply (workflow_mgr zone) (some first_reply) env started).1).1
        ≡ tick (handle_reply (workflow_mgr zone) (some first_reply) env started).1)
unfolding decode_reply resource_store workflow_mgr find_store register_resource_store new_manager
    find_where step_message metadata_context int_succ lookup read_steps atoi itoa int_pred order_by
    select Table.update_row Tasks.update_task update_where Tasks.set_result priority_queue_name
handle_reply-once_example =
    handle_reply-once (workflow_mgr zone) first_reply started
      (context_of (step_task "t1" 1 TaskStatus.queued) 2) vpc (step_task "t1" 1 TaskStatus.queued)
      (step_task "t2" 2 TaskStatus.pending) succeeded env env (record { no_fault = λ n. refl })
      (record {
        payload = refl;
        context = refl;
        known = refl;
        found = refl;
        fresh = refl;
        succeeds = refl;
      })
      refl refl refl refl
