-- ===== src/Workflow/Once.antt =====
-- A successful reply that the broker delivers twice to `HandleReply` of internal/orchestration/workflow.go.
use vpc_workflow_demo.Decimal.{int_succ, int_eq, int_pred}
use vpc_workflow_demo.Models.{Kind, Task, TaskStatus}
use vpc_workflow_demo.World.{Message, Env, World, ReplyPayload, IsFaultless, tick, ok}
use vpc_workflow_demo.Prelude.{
  ap, ◌∙◌, ◌≡◌, ◌+◌, refl, Bool, false, some, List, [], ◌∷◌, find_where, update_where, first,
  order_by, select, ◌=?◌, text_eq_refl, Bool-cases, inl, inr, arith,
}
use vpc_workflow_demo.Dao.Tasks
use vpc_workflow_demo.Dao.Table
use vpc_workflow_demo.Workflow.Manager.{Manager, StepContext, step_message, enqueue}
use vpc_workflow_demo.Workflow.Reply.{handle_reply}
use vpc_workflow_demo.Workflow.Advance.{Answers, counted, handle_reply-next}
use vpc_workflow_demo.Workflow.Lost.{find_where-kept}
use vpc_workflow_demo.Workflow.Duplicates.{handle_reply-settled}

-- A row that is found is found unchanged after an update of other rows.
find_where-other :
    {A : Type 0} (p q : A → Bool) (f : A → A)
    → ((x : A) → p (f x) ≡ p x)
    → (l : List A) (a : A) → find_where p l ≡ some a
    → q a ≡ false
    → find_where p (update_where q f l) ≡ some a
unfolding find_where update_where
find_where-other p q f keep [] a h n = h
find_where-other p q f keep (x ∷ l) a h n = elim (Bool-cases (p x)) [
  | inl here ↦
      let same : x ≡ a = ground arith in
      let miss : q x ≡ false = ap q same ∙ n in rw (miss, here) (ap (λ y. some y) same)
  | inr later ↦ ground (arith, keep x, later, find_where-other p q f keep l a (rw later at h) n)
]

-- If no call fails, a successful reply for a step that is not settled and not the last one is handled
-- without an error, and publishes the message of the next step and nothing else; and if the next step is
-- another row, the same reply delivered once more changes nothing, whatever its calls answer: the next
-- step is not published again, and the row of the resource does not count the step again.
pub handle_reply-once :
    (m : Manager) (msg : Message) (w : World) (c : StepContext) (k : Kind) (t next : Task)
    (r : ReplyPayload) (e e' : Env)
    → IsFaultless e
    → Answers m msg w c k t r
    → int_eq c.step_index (int_pred c.total_steps) ≡ false
    → first (
        order_by Tasks.lower_order
          (select (Tasks.is_pending_of c.resource_id) (counted e c k t r w).tasks))
      ≡ some next
    → (m.queue_resolver next.device_type next.priority =? "") ≡ false
    → (t.id =? next.id) ≡ false
    → ((handle_reply m (some msg) e w).0 ≡ ok tt)
      × ((handle_reply m (some msg) e w).1.published
          ≡ (enqueue (step_message m next c.total_steps) w).published)
      × ((handle_reply m (some msg) e' (handle_reply m (some msg) e w).1).1
          ≡ tick (handle_reply m (some msg) e w).1)
unfolding Tasks.update_task Tasks.set_result Tasks.set_queued Table.update_row Table.set_rows
handle_reply-once m msg w c k t next r e e' calm a more waits routed apart =
    let step = Tasks.at_order c.resource_id (int_succ c.step_index) in
    let done = Tasks.set_result (e.clock (w.calls + 1)) TaskStatus.completed r.result "" in
    let first_write : find_where step (counted e c k t r w).tasks ≡ some (done t) =
      find_where-kept step (Tasks.has_id t.id) done (λ y i. step y) w.tasks t a.found
        (text_eq_refl t.id) in
    let queued =
      Tasks.set_queued (e.clock (w.calls + 1 + 1 + 1 + 1 + 1))
        (e.broker_id (w.calls + 1 + 1 + 1 + 1)) in
    let found' =
      find_where-other step (Tasks.has_id next.id) queued (λ y i. step y)
        (counted e c k t r w).tasks (done t) first_write apart in
    rw (handle_reply-next e calm m msg w c k t r a next more waits routed) (
      refl,
      refl,
      handle_reply-settled m e' _ msg r c (Table.store k) (done t) a.payload a.context a.known
          found' refl,
    )
