-- ===== src/Workflow/Failure.antt =====
-- A final failure that `HandleReply` of internal/orchestration/workflow.go is told of.
use vpc_workflow_demo.Decimal.{int_succ}
use vpc_workflow_demo.Models.{Kind, Task, Row, TaskStatus, ResourceStatus, Attrs, is_settled}
use vpc_workflow_demo.World.{
  Message, Env, World, ReplyPayload, tick, or_wrap, wrap_result, ok, db_query, IsFaultless,
  query_unless, db_exec, exec_unless, ReplyStatus,
}
use vpc_workflow_demo.Prelude.{◌+◌, ◌≡◌, some, find_where, text_eq_refl, false, true, refl}
use vpc_workflow_demo.Dao.Tasks
use vpc_workflow_demo.Dao.Table
use vpc_workflow_demo.Workflow.Manager.{Manager, StepContext, metadata_context, resource_store}
use vpc_workflow_demo.Workflow.Reply.{handle_reply, decode_reply, with_store, on_status, on_failure}
use vpc_workflow_demo.Workflow.Run.{find_row}
use vpc_workflow_demo.Workflow.Lost.{find_where-kept}
use vpc_workflow_demo.Workflow.Duplicates.{handle_reply-settled}

-- The message is a reply of a final failure, for a step of a registered resource that is not settled.
pub record Fails (m : Manager) (msg : Message) (w : World) (c : StepContext) (k : Kind) (t : Task)
    (r : ReplyPayload) : Type 1 where
  pub payload : decode_reply msg.payload ≡ ok r
  pub context : metadata_context msg.metadata ≡ ok c
  pub known : resource_store m c.resource_type ≡ some (Table.store k)
  pub found : find_where (Tasks.at_order c.resource_id (int_succ c.step_index)) w.tasks ≡ some t
  pub fresh : is_settled t.status ≡ false
  pub failed : r.status ≡ ReplyStatus.failed
  pub final : r.final_failure ≡ true

module _ (e : Env) (c : StepContext) (k : Kind) (t : Task) (r : ReplyPayload) (w : World) where
  abbrev failing : Task → Task
  failing = Tasks.set_result (e.clock (w.calls + 1)) TaskStatus.failed "" r.error

  abbrev counting : World
  counting = tick (
      Table.update_row k c.resource_id (Table.add_failed (e.clock (w.calls + 1 + 1)))
        (tick (Tasks.update_task t.id failing (tick w))))

  abbrev broken : World
  broken = tick (
      Table.update_row k c.resource_id
        (Table.set_status (e.clock (w.calls + 1 + 1 + 1)) ResourceStatus.failed r.error) counting)

  failed_eq :
      (m : Manager) (msg : Message)
      → IsFaultless e
      → Fails m msg w c k t r
      → handle_reply m (some msg) e w ≡ (ok tt, broken)
  unfolding handle_reply with_store on_status on_failure Tasks.get_by_resource_and_order Tasks.one
      Tasks.update_result Table.store or_wrap wrap_result db_query query_unless db_exec exec_unless
  failed_eq m msg calm a = rw (
    a.payload, a.context, a.known, calm.no_fault, a.found, a.fresh, a.failed, a.final,
    calm.no_fault, calm.no_fault, calm.no_fault,
  )

-- If no call fails, a reply of a final failure for a step that is not settled is handled without an
-- error and publishes nothing; the resource's row is `failed` with the error of the reply, counts
-- one more failed task, and as many completed ones as before; and the reply delivered once more
-- changes nothing, whatever its calls answer.
pub handle_reply-failed :
    (m : Manager) (msg : Message) (w : World) (c : StepContext) (k : Kind) (t : Task)
    (r : ReplyPayload) (row : Row (Attrs k)) (e e' : Env)
    → IsFaultless e
    → Fails m msg w c k t r
    → find_where (Table.has_id c.resource_id) (Table.table k w) ≡ some row
    → ((handle_reply m (some msg) e w).0 ≡ ok tt)
      × ((handle_reply m (some msg) e w).1.published ≡ w.published)
      × ((after : Row (Attrs k)) × (find_where
              (Table.has_id c.resource_id)
              (Table.table k (handle_reply m (some msg) e w).1)
            ≡ some after)
          × (after.status ≡ ResourceStatus.failed)
          × (after.error_message ≡ r.error)
          × (after.failed_tasks ≡ row.failed_tasks + 1)
          × (after.completed_tasks ≡ row.completed_tasks))
      × ((handle_reply m (some msg) e' (handle_reply m (some msg) e w).1).1
          ≡ tick (handle_reply m (some msg) e w).1)
unfolding Tasks.update_task Tasks.set_result Table.update_row Table.set_rows Table.table
    Table.set_status Table.add_failed
handle_reply-failed m msg w c k t r row e e' calm a found =
    let written = Table.add_failed (e.clock (w.calls + 1 + 1)) row in
    let step = Tasks.at_order c.resource_id (int_succ c.step_index) in
    let found' : find_where step (broken e c k t r w).tasks ≡ some (failing e c k t r w t) =
      find_where-kept step (Tasks.has_id t.id) (failing e c k t r w) (λ y i. step y) w.tasks t
        a.found (text_eq_refl t.id) in
    let row_after =
      find_row k c.resource_id
        (Table.set_status (e.clock (w.calls + 1 + 1 + 1)) ResourceStatus.failed r.error)
        (counting e c k t r w) written (λ y i. y.id)
        (find_row k c.resource_id (Table.add_failed (e.clock (w.calls + 1 + 1)))
          (tick (Tasks.update_task t.id (failing e c k t r w) (tick w))) row (λ y i. y.id) found) in
    rw (failed_eq e c k t r w m msg calm a) (
      refl,
      refl,
      (
        Table.set_status (e.clock (w.calls + 1 + 1 + 1)) ResourceStatus.failed r.error written,
        row_after,
        refl,
        refl,
        refl,
        refl,
      ),
      handle_reply-settled m e' (broken e c k t r w) msg r c (Table.store k) (failing e c k t r w t)
          a.payload a.context a.known found' refl,
    )
