-- ===== src/Az/Orchestrator.antt =====
-- internal/az/orchestrator/orchestrator.go: the orchestrator's own state and what its methods share.
use vpc_workflow_demo.Models.{resource_type, pccn, CreateResponse, subnet, vpc}
use vpc_workflow_demo.World.{
  Err, Message, Exec, Result, ok, error_text, err, fail, new_uuid, wrap, pure, no_rows,
}
use vpc_workflow_demo.Prelude.{String, Option, ℕ, false, if◌then◌else◌, ◌=?◌, true}
use vpc_workflow_demo.Dao.Table
use vpc_workflow_demo.Workflow.Manager.{Manager, new_manager, register_resource_store}
use vpc_workflow_demo.Workflow.Reply.{handle_reply}
use vpc_workflow_demo.Queue.{priority_queue_name, reply_queue_name}

-- `priority_normal` is `PriorityNormal` of the task queue library.
pub record AzOrchestrator : Type 0 where
  pub region : String
  pub az : String
  pub priority_normal : ℕ

unfoldable pub resolve_queue_name : AzOrchestrator → String → ℕ → String
resolve_queue_name o device_type priority = priority_queue_name o.region o.az device_type priority

-- `NewAZOrchestrator` registers the three tables.
unfoldable pub workflow_mgr : AzOrchestrator → Manager
unfolding new_manager register_resource_store
workflow_mgr o = register_resource_store (resource_type pccn) (Table.store pccn) (
    register_resource_store (resource_type subnet) (Table.store subnet) (
      register_resource_store (resource_type vpc) (Table.store vpc)
        (new_manager (priority_queue_name o.region o.az) (reply_queue_name o.region o.az "vpc"))))

unfoldable pub handle_reply_task : AzOrchestrator → Option Message → Exec (Unit {0})
handle_reply_task o msg = handle_reply (workflow_mgr o) msg

-- `if err == sql.ErrNoRows { ... }`, and another text for other errors.
unfoldable pub missing_as {ℓ} : {A : Type ℓ} → String → String → Result A → Result A
missing_as absent broken (ok a) = ok a
missing_as absent broken (err no_rows) = err (fail absent)
missing_as absent broken (err x) = err (wrap broken x)

unfoldable pub or_missing {ℓ} : {A : Type ℓ} → String → String → Exec A → Exec A
unfolding missing_as
or_missing absent broken m e w = let (r, w') = m e w in (missing_as absent broken r, w')

refused : Err → CreateResponse
refused x = record { success = false; message = error_text x; id = ""; workflow_id = "" }

answer : String → Result (String × String) → CreateResponse
unfolding refused
answer message (ok (id, workflow_id)) = record {
  success = true;
  message = message;
  id = id;
  workflow_id = workflow_id;
}
answer message (err x) = refused x

-- A create method returns its error in the response, and `nil` beside it.
unfoldable pub respond : String → Exec (String × String) → Exec CreateResponse
unfolding answer
respond message m e w = let (r, w') = m e w in (ok (answer message r), w')

-- `req.VPCID`, or a new identifier if it is empty.
unfoldable pub id_or_new : String → Exec String
id_or_new id = if id =? "" then new_uuid else pure id
