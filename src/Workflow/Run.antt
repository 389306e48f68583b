-- ===== src/Workflow/Run.antt =====
-- The run of a workflow: each message that is published is answered by a successful reply, until
-- the last step is done.
pub mod Step
pub mod Completes
use vpc_workflow_demo.Decimal.{pos, max_int, int_succ, int_eq}
use vpc_workflow_demo.World.{Message, ReplyPayload, reply, World, ReplyStatus, ok}
use vpc_workflow_demo.Models.{
  Kind, resource_type, Row, Attrs, Task, is_settled, vpc, subnet, pccn, firewall_policy,
}
use vpc_workflow_demo.Prelude.{
  ℕ, String, List, ◌=?◌, ◌≡◌, some, false, select, length, find_where, ◌≤◌, ◌++◌, ◌+◌, ◌∷◌, All,
  refl, update_where, ◌-◌, find_where-update_where, arith, ap, ◌∙◌, find_where-and,
}
use vpc_workflow_demo.Dao.Tasks
use vpc_workflow_demo.Dao.Tasks.Keys.{DistinctIds}
use vpc_workflow_demo.Dao.Table
use vpc_workflow_demo.Workflow.Manager.{
  Manager, StepContext, metadata_context, resource_store, step_message,
}
use vpc_workflow_demo.Workflow.Reply.{decode_reply}
use vpc_workflow_demo.Workflow.Metadata.{context_of, metadata_context-step_message}
use vpc_workflow_demo.Workflow.Steps.{
  Numbered, AllCompleted, AllPending, Numbered-right, find_where-Numbered, length-middle,
}
use vpc_workflow_demo.Workflow.Advance.{Answers}

-- The reply to a message: the metadata of the message, and a payload.
unfoldable pub answer_of : Message → ReplyPayload → Message
answer_of msg r = record msg { payload = reply r }

-- Of the steps of a resource, numbered from 1, `done` are completed, `cur` is with the broker, and
-- `rest` waits; the resource has the row `row`.
pub record InStep (rid : String) (k : Kind) (total : ℕ) (done : List Task) (cur : Task)
    (rest : List Task) (row : Row (Attrs k)) (w : World) : Type 0 where
  pub steps : select (Tasks.of_resource rid) w.tasks ≡ done ++ cur ∷ rest
  pub unique : DistinctIds w.tasks
  pub completed : AllCompleted done
  pub fresh : is_settled cur.status ≡ false
  pub waiting : AllPending rest
  pub numbered : Numbered 1 (done ++ cur ∷ rest)
  pub size : length (done ++ cur ∷ rest) ≡ total
  pub owned : All (λ t. (t.resource_id ≡ rid) × (t.resource_type ≡ resource_type k)) (cur ∷ rest)
  pub found_row : find_where (Table.has_id rid) (Table.table k w) ≡ some row

-- A resource that a manager knows, with an id, and not too many steps.
pub record IsKnown (m : Manager) (rid : String) (k : Kind) (total : ℕ) : Type 1 where
  pub known : resource_store m (resource_type k) ≡ some (Table.store k)
  pub named : (rid =? "") ≡ false
  pub bounded : total ≤ max_int

kind_named : (k : Kind) → (resource_type k =? "") ≡ false
kind_named vpc = refl
kind_named subnet = refl
kind_named pccn = refl
kind_named firewall_policy = refl

table-update_row :
    (k : Kind) (rid : String) (f : Row (Attrs k) → Row (Attrs k)) (w : World)
    → Table.table k (Table.update_row k rid f w)
      ≡ update_where (Table.has_id rid) f (Table.table k w)
unfolding Table.table Table.update_row Table.set_rows
table-update_row vpc rid f w = refl
table-update_row subnet rid f w = refl
table-update_row pccn rid f w = refl
table-update_row firewall_policy rid f w = refl

pub find_row :
    (k : Kind) (rid : String) (f : Row (Attrs k) → Row (Attrs k)) (w : World) (row : Row (Attrs k))
    → ((r : Row (Attrs k)) → (f r).id ≡ r.id)
    → find_where (Table.has_id rid) (Table.table k w) ≡ some row
    → find_where (Table.has_id rid) (Table.table k (Table.update_row k rid f w)) ≡ some (f row)
find_row k rid f w row keep h = rw (
  table-update_row k rid f w,
  find_where-update_where (Table.has_id rid) (Table.has_id rid) f (λ x. ap (λ i. i =? rid) (keep x))
      (Table.table k w),
  h,
)

-- The context of the message for the step after `done`.
abbrev pub context : String → Kind → ℕ → List Task → StepContext
context rid k total done = record {
  resource_type = resource_type k;
  resource_id = rid;
  step_index = pos (length done);
  total_steps = pos total;
}

module _ (m : Manager) (rid : String) (k : Kind) (total : ℕ) (known : IsKnown m rid k total) where
  module _ (done : List Task) (cur : Task) (rest : List Task) (row : Row (Attrs k)) (w : World)
      (s : InStep rid k total done cur rest row w) where
    pub order_of : cur.task_order ≡ 1 + length done
    order_of = (Numbered-right 1 done (cur ∷ rest) s.numbered).0

    below : 1 + length done ≤ max_int
    below = omega (arith, s.size, known.bounded, length-middle done cur rest)

    context_eq : ok (context_of cur total) ≡ ok (context rid k total done)
    context_eq =
        let index : cur.task_order - 1 ≡ length done = omega (arith, order_of) in
        rw (s.owned.0.1, s.owned.0.0, index)

    pub reads :
        metadata_context (step_message m cur (pos total)).metadata ≡ ok (context rid k total done)
    reads =
        metadata_context-step_message m cur total (ap (λ i. i =? "") s.owned.0.0 ∙ known.named)
          (ap (λ i. i =? "") s.owned.0.1 ∙ kind_named k) (omega (arith, order_of))
          (omega (arith, order_of, below)) known.bounded
        ∙ context_eq

    pub finds : find_where (Tasks.at_order rid (int_succ (pos (length done)))) w.tasks ≡ some cur
    unfolding int_succ
    finds =
        let up : int_succ (pos (length done)) ≡ pos (length done + 1) = ground (arith, below) in
        rw
          (
            up,
            find_where-and (Tasks.of_resource rid)
                (λ t. int_eq (pos t.task_order) (pos (length done + 1))) w.tasks,
            s.steps,
          )
          (find_where-Numbered 1 (length done + 1) done cur rest (omega arith) s.numbered)

    pub answers :
        (r : ReplyPayload)
        → r.status ≡ ReplyStatus.success
        → Answers m
            (answer_of (step_message m cur (pos total)) r)
            w
            (context rid k total done)
            k
            cur
            r
    unfolding answer_of decode_reply
    answers r good = record {
      payload = refl;
      context = reads;
      known = known.known;
      found = finds;
      fresh = s.fresh;
      succeeds = good;
    }
