-- ===== src/Workflow/Run/Completes.antt =====
-- Every step of a workflow is answered by a success: the workflow completes.
use vpc_workflow_demo.Decimal.{pos, int_eq, int_pred}
use vpc_workflow_demo.Models.{Kind, Row, Attrs, Task, ResourceStatus}
use vpc_workflow_demo.World.{
  ReplyPayload, Message, Exec, pure, ReplyStatus, Env, World, ◌>>=◌, IsFaultless, ok,
}
use vpc_workflow_demo.Prelude.{
  ℕ, String, List, All, Option, ◌++◌, ◌=?◌, ◌≡◌, none, ◌∷◌, false, some, [], select, refl,
  find_where, ◌+◌, length, map, arith, first, sym, order_by, true, suc, ◌∙◌,
}
use vpc_workflow_demo.Dao.Tasks
use vpc_workflow_demo.Dao.Table
use vpc_workflow_demo.Workflow.Manager.{Manager, step_message}
use vpc_workflow_demo.Workflow.Reply.{handle_reply}
use vpc_workflow_demo.Workflow.Metadata.{int_pred_pos}
use vpc_workflow_demo.Workflow.Steps.{AllCompleted, length-middle}
use vpc_workflow_demo.Workflow.Advance.{
  counted, finished, advanced, handle_reply-last, handle_reply-next,
}
use vpc_workflow_demo.Workflow.Run.{InStep, IsKnown, answer_of, find_row, context, answers}
use vpc_workflow_demo.Workflow.Run.Step.{
  completing, queueing, written-steps, written-AllCompleted, next-waits, advanced-InStep,
}

abbrev pub last_of : List Message → Option Message
last_of [] = none
last_of (x ∷ []) = some x
last_of (x ∷ (y ∷ l)) = last_of (y ∷ l)

unfoldable pub answer : Manager → ReplyPayload → Option Message → Exec (Unit {0})
unfolding answer_of
answer m r none = pure tt
answer m r (some msg) = handle_reply m (some (answer_of msg r))

-- The message published last is answered.
unfoldable pub answer_last : Manager → ReplyPayload → Exec (Unit {0})
unfolding answer
answer_last m r e w = answer m r (last_of w.published) e w

unfoldable pub answer_all : Manager → List ReplyPayload → Exec (Unit {0})
unfolding answer_last
answer_all m [] = pure tt
answer_all m (r ∷ rs) = let rest = answer_all m rs in answer_last m r >>= λ _. rest

abbrev pub AllSuccessful : List ReplyPayload → Type 0
AllSuccessful = All (λ r. r.status ≡ ReplyStatus.success)

-- All steps of the resource are completed; its row is `running`, and counts `n` more of them.
pub record HasRun (rid : String) (k : Kind) (n : ℕ) (row : Row (Attrs k)) (w : World) : Type 0 where
  pub all_completed : AllCompleted (select (Tasks.of_resource rid) w.tasks)
  pub row_after : Row (Attrs k)
  pub found_after : find_where (Table.has_id rid) (Table.table k w) ≡ some row_after
  pub is_running : row_after.status ≡ ResourceStatus.running
  pub counted : row_after.completed_tasks ≡ row.completed_tasks + n

pub last_of-append : (l : List Message) (x : Message) → last_of (l ++ x ∷ []) ≡ some x
last_of-append [] x = refl
last_of-append (y ∷ []) x = refl
last_of-append (y ∷ (z ∷ l)) x = last_of-append (z ∷ l) x

append_nil : (xs : List Message) → xs ++ [] ≡ xs
append_nil [] = refl
append_nil (x ∷ xs) = rw (append_nil xs)

pub append_assoc :
    (xs : List Message) (y : Message) (ys : List Message) → (xs ++ y ∷ []) ++ ys ≡ xs ++ y ∷ ys
append_assoc [] y ys = refl
append_assoc (x ∷ xs) y ys = rw (append_assoc xs y ys)

module _ (m : Manager) (rid : String) (k : Kind) (total : ℕ) (known : IsKnown m rid k total)
    (routed : (d : String) (p : ℕ) → (m.queue_resolver d p =? "") ≡ false) (e : Env)
    (calm : IsFaultless e) where
  pub finished-HasRun :
      (done : List Task) (cur : Task) (row : Row (Attrs k)) (w : World) (r : ReplyPayload)
      → InStep rid k total done cur [] row w
      → HasRun rid k 1 row (finished e (context rid k total done) k cur r w)
  unfolding Table.table Table.update_row Table.set_rows Tasks.update_task Table.add_completed
      Table.set_status
  finished-HasRun done cur row w r s = record {
    all_completed =
        rw (written-steps e w cur r rid k total done [] row s)
          (written-AllCompleted e w cur r rid k total done [] row s);
    row_after =
        Table.set_status (e.clock (w.calls + 1 + 1 + 1)) ResourceStatus.running ""
          (Table.add_completed (e.clock (w.calls + 1 + 1)) row);
    found_after =
        find_row k rid (Table.set_status (e.clock (w.calls + 1 + 1 + 1)) ResourceStatus.running "")
          (counted e (context rid k total done) k cur r w)
          (Table.add_completed (e.clock (w.calls + 1 + 1)) row) (λ x i. x.id)
          (find_row k rid (Table.add_completed (e.clock (w.calls + 1 + 1))) w row (λ x i. x.id)
            s.found_row);
    is_running = refl;
    counted = refl;
  }

  pub HasRun-shift :
      (t n : ℕ) (row : Row (Attrs k)) (w : World)
      → HasRun rid k n (Table.add_completed t row) w
      → HasRun rid k (suc n) row w
  unfolding Table.add_completed
  HasRun-shift t n row w h = record {
    all_completed = h.all_completed;
    row_after = h.row_after;
    found_after = h.found_after;
    is_running = h.is_running;
    counted = omega (arith, h.counted);
  }

  pub last_answered :
      (done : List Task) (cur : Task) (row : Row (Attrs k)) (w : World) (r : ReplyPayload)
      → InStep rid k total done cur [] row w
      → r.status ≡ ReplyStatus.success
      → handle_reply m (some (answer_of (step_message m cur (pos total)) r)) e w
        ≡ (ok tt, finished e (context rid k total done) k cur r w)
  last_answered done cur row w r s good =
      let many : total ≡ length done + 1 = omega (arith, s.size, length-middle done cur []) in
      let final : int_eq (pos (length done)) (int_pred (pos total)) ≡ true =
        rw (int_pred_pos total (omega (arith, many))) (ground (arith, many)) in
      handle_reply-last e calm m (answer_of (step_message m cur (pos total)) r) w
        (context rid k total done) k cur r (answers m rid k total known done cur [] row w s r good)
        final

  last_step :
      (done : List Task) (cur : Task) (row : Row (Attrs k)) (w : World) (r : ReplyPayload)
      → InStep rid k total done cur [] row w
      → last_of w.published ≡ some (step_message m cur (pos total))
      → r.status ≡ ReplyStatus.success
      → answer_last m r e w ≡ (ok tt, finished e (context rid k total done) k cur r w)
  unfolding answer_last answer
  last_step done cur row w r s l good = rw l (last_answered done cur row w r s good)

  waiting_next :
      (done : List Task) (cur next : Task) (rest : List Task) (row : Row (Attrs k)) (w : World)
      (r : ReplyPayload)
      → InStep rid k total done cur (next ∷ rest) row w
      → first (
          order_by Tasks.lower_order (
            select
              (Tasks.is_pending_of rid)
              (counted e (context rid k total done) k cur r w).tasks))
        ≡ some next
  unfolding Tasks.update_task Table.update_row Table.set_rows
  waiting_next done cur next rest row w r s = next-waits e w cur r rid k total done next rest row s

  pub next_answered :
      (done : List Task) (cur next : Task) (rest : List Task) (row : Row (Attrs k)) (w : World)
      (r : ReplyPayload)
      → InStep rid k total done cur (next ∷ rest) row w
      → r.status ≡ ReplyStatus.success
      → handle_reply m (some (answer_of (step_message m cur (pos total)) r)) e w
        ≡ (ok tt, advanced e (context rid k total done) k cur r m next w)
  next_answered done cur next rest row w r s good =
      let many : total ≡ length done + 2 + length rest =
        omega (arith, s.size, length-middle done cur (next ∷ rest)) in
      let more : int_eq (pos (length done)) (int_pred (pos total)) ≡ false =
        rw (int_pred_pos total (omega (arith, many))) (ground (arith, many)) in
      handle_reply-next e calm m (answer_of (step_message m cur (pos total)) r) w
        (context rid k total done) k cur r
        (answers m rid k total known done cur (next ∷ rest) row w s r good) next more
        (waiting_next done cur next rest row w r s) (routed next.device_type next.priority)

  next_step :
      (done : List Task) (cur next : Task) (rest : List Task) (row : Row (Attrs k)) (w : World)
      (r : ReplyPayload)
      → InStep rid k total done cur (next ∷ rest) row w
      → last_of w.published ≡ some (step_message m cur (pos total))
      → r.status ≡ ReplyStatus.success
      → answer_last m r e w ≡ (ok tt, advanced e (context rid k total done) k cur r m next w)
  unfolding answer_last answer
  next_step done cur next rest row w r s l good =
      rw l (next_answered done cur next rest row w r s good)

  -- If the kind of the resource is registered, its id is not empty, the number of its steps fits an
  -- int, no queue name is empty and no call fails, then a resource whose first open step is with
  -- the broker, its message published last, is run to the end by as many successful replies as it
  -- has open steps, each to the message published last: the replies are handled without an error,
  -- the messages of the waiting steps are published, each once and in order, all steps are
  -- completed, and the row is `running` and has counted every one of them.
  pub answer_all-HasRun :
      (rs : List ReplyPayload) (done : List Task) (cur : Task) (rest : List Task)
      (row : Row (Attrs k)) (w : World)
      → InStep rid k total done cur rest row w
      → last_of w.published ≡ some (step_message m cur (pos total))
      → AllSuccessful rs
      → length rs ≡ 1 + length rest
      → ((answer_all m rs e w).0 ≡ ok tt)
        × ((answer_all m rs e w).1.published
            ≡ w.published ++ map (λ t. step_message m t (pos total)) rest)
        × HasRun rid k (length rs) row (answer_all m rs e w).1
  unfolding answer_all pure Tasks.update_task Table.update_row Table.set_rows Tasks.set_queued
      step_message
  answer_all-HasRun [] done cur rest row w s l g n = absurd (omega (arith, n))
  answer_all-HasRun (r ∷ (q ∷ rs)) done cur [] row w s l g n = absurd (omega (arith, n))
  answer_all-HasRun (r ∷ []) done cur (next ∷ rest) row w s l g n = absurd (omega (arith, n))
  answer_all-HasRun (r ∷ []) done cur [] row w s l g n =
      rw (last_step done cur row w r s l g.0)
        (refl, sym (append_nil w.published), finished-HasRun done cur row w r s)
  answer_all-HasRun (r ∷ (q ∷ rs)) done cur (next ∷ rest) row w s l g n =
      let next_row = Table.add_completed (e.clock (w.calls + 1 + 1)) row in
      let w' = advanced e (context rid k total done) k cur r m next w in
      let (fine, sent, run) =
        answer_all-HasRun (q ∷ rs) (done ++ completing e w cur r cur ∷ []) (queueing e w cur r next)
          rest next_row w' (advanced-InStep e w cur r rid k total done next rest row s m)
          (last_of-append w.published (step_message m next (pos total))) g.1 (omega (arith, n)) in
      rw (next_step done cur next rest row w r s l g.0) (
        fine,
        sent
            ∙ append_assoc w.published (step_message m next (pos total))
                (map (λ t. step_message m t (pos total)) rest),
        HasRun-shift (e.clock (w.calls + 1 + 1)) (length (q ∷ rs)) row _ run,
      )
