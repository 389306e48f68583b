-- ===== src/Workflow/Duplicates.antt =====
-- Replies that `HandleReply` of internal/orchestration/workflow.go drops.
use vpc_workflow_demo.Prelude.{◌≡◌, some, find_where, true, Option-cases, inl, inr}
use vpc_workflow_demo.Decimal.{int_succ}
use vpc_workflow_demo.Models.{Task, is_settled}
use vpc_workflow_demo.World.{
  Env, World, Message, ReplyPayload, ok, tick, or_wrap, wrap_result, db_query, pure, query_unless,
}
use vpc_workflow_demo.Dao.Tasks
use vpc_workflow_demo.Dao.Table.{ResourceStore}
use vpc_workflow_demo.Workflow.Manager.{Manager, StepContext, metadata_context, resource_store}
use vpc_workflow_demo.Workflow.Reply.{handle_reply, decode_reply, with_store}

-- If the message is a reply for a registered resource, and the step that it names is completed or
-- failed already, the reply changes nothing in the world, whatever it says and whether or not the
-- query of the task fails: one call is made.
pub handle_reply-settled :
    (m : Manager) (e : Env) (w : World) (msg : Message) (r : ReplyPayload) (c : StepContext)
    (s : ResourceStore) (t : Task)
    → decode_reply msg.payload ≡ ok r
    → metadata_context msg.metadata ≡ ok c
    → resource_store m c.resource_type ≡ some s
    → find_where (Tasks.at_order c.resource_id (int_succ c.step_index)) w.tasks ≡ some t
    → is_settled t.status ≡ true
    → (handle_reply m (some msg) e w).1 ≡ tick w
unfolding handle_reply with_store Tasks.get_by_resource_and_order Tasks.one or_wrap wrap_result
    db_query pure query_unless
handle_reply-settled m e w msg r c s t p q known found settled =
    elim (Option-cases (e.fault w.calls)) [
      | inl none_here ↦ rw (p, q, known, none_here, found, settled)
      | inr (x, broken) ↦ rw (p, q, known, broken)
    ]
