-- ===== src/Workflow/Advance.antt =====
-- What `HandleReply` of internal/orchestration/workflow.go writes when every call succeeds: a
-- successful step, with a step after it or as the last.
use vpc_workflow_demo.Decimal.{int_succ, int_eq, int_pred}
use vpc_workflow_demo.Models.{Kind, Task, TaskStatus, ResourceStatus, is_settled}
use vpc_workflow_demo.World.{
  Message, Env, IsFaultless, World, ReplyPayload, tick, or_wrap, wrap_result, ok, db_query,
  query_unless, db_exec, exec_unless, ReplyStatus, pure,
}
use vpc_workflow_demo.Prelude.{
  ◌≡◌, ◌+◌, some, find_where, false, true, first, order_by, select, ◌=?◌,
}
use vpc_workflow_demo.Dao.Tasks
use vpc_workflow_demo.Dao.Table
use vpc_workflow_demo.Workflow.Manager.{
  Manager, StepContext, metadata_context, resource_store, step_message, enqueue, publish_task,
  broker_publish,
}
use vpc_workflow_demo.Workflow.Reply.{
  handle_reply, decode_reply, with_store, on_status, on_success, publish_next,
}

module _ (e : Env) (c : StepContext) (k : Kind) (t : Task) (r : ReplyPayload) where
  -- The step is completed, and counted.
  abbrev pub counted : World → World
  counted w = tick (
      Table.update_row k c.resource_id (Table.add_completed (e.clock (w.calls + 1 + 1))) (
        tick (
          Tasks.update_task t.id
            (Tasks.set_result (e.clock (w.calls + 1)) TaskStatus.completed r.result "") (tick w))))

  -- The resource runs.
  abbrev pub finished : World → World
  finished w = tick (
      Table.update_row k c.resource_id
        (Table.set_status (e.clock (w.calls + 1 + 1 + 1)) ResourceStatus.running "") (counted w))

  -- The next step is with the broker.
  abbrev pub advanced : Manager → Task → World → World
  advanced m next w = tick (
      Tasks.update_task next.id
        (Tasks.set_queued (e.clock (w.calls + 1 + 1 + 1 + 1 + 1))
          (e.broker_id (w.calls + 1 + 1 + 1 + 1)))
        (tick (enqueue (step_message m next c.total_steps) (tick (counted w)))))

-- The message is a successful reply for a step of a registered resource that is not settled.
pub record Answers (m : Manager) (msg : Message) (w : World) (c : StepContext) (k : Kind) (t : Task)
    (r : ReplyPayload) : Type 1 where
  pub payload : decode_reply msg.payload ≡ ok r
  pub context : metadata_context msg.metadata ≡ ok c
  pub known : resource_store m c.resource_type ≡ some (Table.store k)
  pub found : find_where (Tasks.at_order c.resource_id (int_succ c.step_index)) w.tasks ≡ some t
  pub fresh : is_settled t.status ≡ false
  pub succeeds : r.status ≡ ReplyStatus.success

module _ (e : Env) (calm : IsFaultless e) (m : Manager) (msg : Message) (w : World)
    (c : StepContext) (k : Kind) (t : Task) (r : ReplyPayload) (a : Answers m msg w c k t r) where
  pub handle_reply-last :
      int_eq c.step_index (int_pred c.total_steps) ≡ true
      → handle_reply m (some msg) e w ≡ (ok tt, finished e c k t r w)
  unfolding handle_reply with_store on_status on_success Tasks.get_by_resource_and_order Tasks.one
      Tasks.update_result Table.store or_wrap wrap_result db_query query_unless db_exec exec_unless
  handle_reply-last final = rw (
    a.payload, a.context, a.known, calm.no_fault, a.found, a.fresh, a.succeeds, calm.no_fault,
    calm.no_fault, final, calm.no_fault,
  )

  -- What `GetNextPendingTask` reads after the step is written.
  pub handle_reply-next :
      (next : Task)
      → int_eq c.step_index (int_pred c.total_steps) ≡ false
      → first (
          order_by Tasks.lower_order
            (select (Tasks.is_pending_of c.resource_id) (counted e c k t r w).tasks))
        ≡ some next
      → (m.queue_resolver next.device_type next.priority =? "") ≡ false
      → handle_reply m (some msg) e w ≡ (ok tt, advanced e c k t r m next w)
  unfolding handle_reply with_store on_status on_success publish_next publish_task broker_publish
      Tasks.get_by_resource_and_order Tasks.get_next_pending_task Tasks.one Tasks.update_result
      Tasks.update_queued Table.store or_wrap wrap_result db_query query_unless db_exec exec_unless
      pure
  handle_reply-next next more waits routed = rw (
    a.payload, a.context, a.known, calm.no_fault, a.found, a.fresh, a.succeeds, calm.no_fault,
    calm.no_fault, more, calm.no_fault, waits, routed, calm.no_fault, calm.no_fault,
  )
