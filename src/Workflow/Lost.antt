-- ===== src/Workflow/Lost.antt =====
-- A reply whose handling in `HandleReply` of internal/orchestration/workflow.go breaks off after
-- the task is written, and its second delivery.
use vpc_workflow_demo.Decimal.{int_succ}
use vpc_workflow_demo.Models.{Kind, Task, TaskStatus}
use vpc_workflow_demo.World.{
  Message, World, ReplyPayload, or_wrap, Env, wrap_result, db_query, query_unless, db_exec, tick,
  exec_unless,
}
use vpc_workflow_demo.Prelude.{
  find_where, update_where, Bool, ◌≡◌, List, some, true, String, arith, none, ◌+◌, ◌∷◌, [],
  Bool-cases, text_eq_refl, inl, ap, refl, ◌∙◌, inr,
}
use vpc_workflow_demo.Dao.Tasks
use vpc_workflow_demo.Dao.Table
use vpc_workflow_demo.Workflow.Manager.{Manager, StepContext}
use vpc_workflow_demo.Workflow.Reply.{handle_reply, with_store, on_status, on_success}
use vpc_workflow_demo.Workflow.Advance.{Answers}
use vpc_workflow_demo.Workflow.Duplicates.{handle_reply-settled}

pub find_where-kept :
    {A : Type 0} (p q : A → Bool) (f : A → A)
    → ((x : A) → p (f x) ≡ p x)
    → (l : List A) (t : A) → find_where p l ≡ some t
    → q t ≡ true
    → find_where p (update_where q f l) ≡ some (f t)
unfolding find_where update_where
find_where-kept p q f keep [] t h k = absurd (ground arith)
find_where-kept p q f keep (x ∷ xs) t h k = elim (Bool-cases (p x)) [
  | inl here ↦
      let same : x ≡ t = ground arith in
      let hit : q x ≡ true = ap q same ∙ k in rw (hit, keep x, here) (ap (λ y. some (f y)) same)
  | inr later ↦ ground (arith, keep x, later, find_where-kept p q f keep xs t (rw later at h) k)
]

module _ (m : Manager) (msg : Message) (w : World) (c : StepContext) (k : Kind) (t : Task)
    (r : ReplyPayload) (a : Answers m msg w c k t r) where
  broken_off :
      (e : Env) (x : String)
      → e.fault w.calls ≡ none
      → e.fault (w.calls + 1) ≡ none
      → e.fault (w.calls + 1 + 1) ≡ some x
      → (handle_reply m (some msg) e w).1
        ≡ tick (
            tick (
              Tasks.update_task t.id
                (Tasks.set_result (e.clock (w.calls + 1)) TaskStatus.completed r.result "")
                (tick w)))
  unfolding handle_reply with_store on_status on_success Tasks.get_by_resource_and_order Tasks.one
      Tasks.update_result Table.store or_wrap wrap_result db_query query_unless db_exec exec_unless
  broken_off e x f g h = rw (a.payload, a.context, a.known, f, a.found, a.fresh, a.succeeds, g, h)

-- If a successful reply finds its task, and the statement after the one that completes the task
-- fails, then the reply delivered once more publishes nothing and changes no row and no task,
-- whatever its calls answer: the resource never counts the step, and the next step is not started.
pub handle_reply-lost :
    (m : Manager) (msg : Message) (w : World) (c : StepContext) (k : Kind) (t : Task)
    (r : ReplyPayload) (e e' : Env) (x : String)
    → Answers m msg w c k t r
    → e.fault w.calls ≡ none
    → e.fault (w.calls + 1) ≡ none
    → e.fault (w.calls + 1 + 1) ≡ some x
    → (handle_reply m (some msg) e' (handle_reply m (some msg) e w).1).1
        ≡ tick (handle_reply m (some msg) e w).1
      × ((handle_reply m (some msg) e w).1.published ≡ w.published)
      × ((handle_reply m (some msg) e w).1.rows ≡ w.rows)
unfolding Tasks.update_task Tasks.set_result
handle_reply-lost m msg w c k t r e e' x a f g h =
    let done = Tasks.set_result (e.clock (w.calls + 1)) TaskStatus.completed r.result "" in
    let w' = tick (tick (Tasks.update_task t.id done (tick w))) in
    let found' : find_where (Tasks.at_order c.resource_id (int_succ c.step_index)) w'.tasks
        ≡ some (done t) =
      find_where-kept (Tasks.at_order c.resource_id (int_succ c.step_index)) (Tasks.has_id t.id)
        done (λ y i. Tasks.at_order c.resource_id (int_succ c.step_index) y) w.tasks t a.found
        (text_eq_refl t.id) in
    rw (broken_off m msg w c k t r a e x f g h) (
      handle_reply-settled m e' w' msg r c (Table.store k) (done t) a.payload a.context a.known
          found' refl,
      refl,
      refl,
    )
