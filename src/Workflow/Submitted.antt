-- ===== src/Workflow/Submitted.antt =====
-- A workflow that `SubmitWorkflow` of internal/orchestration/workflow.go has submitted, and its run.
use vpc_workflow_demo.Workflow.Run.{InStep, find_row, IsKnown}
use vpc_workflow_demo.Decimal.{pos}
use vpc_workflow_demo.Models.{Kind, Task, Row, resource_type, Attrs, ResourceStatus}
use vpc_workflow_demo.World.{
  Env, IsFaultless, World, tick, ok, or_wrap, wrap_result, attempt, db_exec, exec_unless, pure,
  ReplyPayload,
}
use mathlib.Core.Path.{subst}
use vpc_workflow_demo.Prelude.{
  ℕ, List, length, ◌∷◌, ◌≡◌, ◌+◌, map, String, ap, [], suc, refl, some, ◌++◌, ◌=?◌, false, select,
  select-append, find_where, update_where, select-update_where, select-eq_self, arith, ◌∙◌,
}
use vpc_workflow_demo.Dao.Tasks
use vpc_workflow_demo.Dao.Tasks.Keys.{DistinctIds, DistinctIds-update_where}
use vpc_workflow_demo.Dao.Table
use vpc_workflow_demo.Workflow.Manager.{
  Manager, WorkflowStep, WorkflowDef, step_message, enqueue, publish_task, broker_publish,
  resource_store,
}
use vpc_workflow_demo.Workflow.Submit.{new_task, submit_workflow, submit_with, start, publish_first}
use vpc_workflow_demo.Workflow.Steps.{update_where-current, DistinctIds-select}
use vpc_workflow_demo.Workflow.Run.Completes.{
  answer_all, answer_all-HasRun, last_of-append, append_assoc, AllSuccessful, HasRun,
}
use vpc_workflow_demo.Workflow.Inserted.{
  inserted, inserted-AllPending, inserted-Numbered, length-inserted, length-made, inserted-owned,
  inserted-of_resource,
}
use vpc_workflow_demo.Workflow.Begin.{made, later, build_tasks-made, batch_create-eq}

-- The workflow of a resource.
abbrev pub workflow : Kind → String → String → List WorkflowStep → WorkflowDef
workflow k rid az steps = record {
  resource_type = resource_type k;
  resource_id = rid;
  az = az;
  steps = steps;
}

module _ (e : Env) (k : Kind) (rid az : String) (s : WorkflowStep) (ss : List WorkflowStep)
    (w : World) where
  abbrev def : WorkflowDef
  def = workflow k rid az (s ∷ ss)

  abbrev pub count : ℕ
  count = length (s ∷ ss)

  -- The call at which the rows are inserted.
  abbrev drawn : World
  drawn = later count w

  abbrev pub rows_in : List Task
  rows_in = inserted e def (s ∷ ss) 1 w.calls (e.clock (drawn.calls + 1))

  abbrev pub head_task : Task
  head_task = Tasks.stamp (e.clock (drawn.calls + 1)) (new_task def s 1 (e.uuid w.calls))

  abbrev pub rest_tasks : List Task
  rest_tasks = inserted e def ss 2 (w.calls + 1) (e.clock (drawn.calls + 1))

  -- The world in which the tasks are inserted.
  abbrev stored : World
  stored = tick (record (later (length rows_in) (tick drawn)) { tasks = w.tasks ++ rows_in })

  abbrev pub counting : Row (Attrs k) → Row (Attrs k)
  counting = Table.set_total_tasks (e.clock stored.calls) count

  abbrev pub creating : Row (Attrs k) → Row (Attrs k)
  creating = Table.set_status (e.clock (stored.calls + 1)) ResourceStatus.creating ""

  abbrev ready : World
  ready = tick (Table.update_row k rid creating (tick (Table.update_row k rid counting stored)))

  abbrev pub queueing : Task → Task
  queueing = Tasks.set_queued (e.clock (ready.calls + 1)) (e.broker_id ready.calls)

  module _ (m : Manager) where
    abbrev pub launched : World
    launched = tick (
        Tasks.update_task head_task.id queueing
          (tick (enqueue (step_message m head_task (pos count)) ready)))

    pub submitted-eq :
        IsFaultless e
        → resource_store m (resource_type k) ≡ some (Table.store k)
        → DistinctIds (w.tasks ++ rows_in)
        → ((d : String) (p : ℕ) → (m.queue_resolver d p =? "") ≡ false)
        → submit_workflow m def e w ≡ (ok rid, launched)
    unfolding submit_workflow submit_with start publish_first publish_task broker_publish made
        Table.store or_wrap wrap_result attempt db_exec exec_unless pure Tasks.update_queued
        Tasks.stamp
    submitted-eq calm known new routed = rw (
      known,
      build_tasks-made e def (s ∷ ss) 1 w,
      batch_create-eq e calm (made e def (s ∷ ss) 1 w.calls) drawn new,
      length-made e def (e.clock 0) ss 2 (w.calls + 1),
      calm.no_fault,
      calm.no_fault,
      routed,
      calm.no_fault,
      calm.no_fault,
    )

    module _ (new : DistinctIds (w.tasks ++ rows_in))
        (none_yet : select (Tasks.of_resource rid) w.tasks ≡ []) where
      selected : select (Tasks.of_resource rid) (w.tasks ++ rows_in) ≡ head_task ∷ rest_tasks
      unfolding made
      selected =
          rw (select-append (Tasks.of_resource rid) w.tasks rows_in, none_yet)
            (select-eq_self (Tasks.of_resource rid) rows_in
              (inserted-of_resource e def (e.clock (drawn.calls + 1)) (s ∷ ss) 1 w.calls))

      selected-DistinctIds : DistinctIds (head_task ∷ rest_tasks)
      selected-DistinctIds =
          subst (λ l. DistinctIds l) selected
            (DistinctIds-select (Tasks.of_resource rid) (w.tasks ++ rows_in) new)

      launched-steps :
          select
            (Tasks.of_resource rid)
            (update_where (Tasks.has_id head_task.id) queueing (w.tasks ++ rows_in))
          ≡ queueing head_task ∷ rest_tasks
      unfolding Tasks.set_queued
      launched-steps =
          rw
            (
              select-update_where (Tasks.of_resource rid) (Tasks.has_id head_task.id) queueing
                  (λ x i. Tasks.of_resource rid x) (w.tasks ++ rows_in),
              selected,
            )
            (update_where-current queueing [] head_task rest_tasks selected-DistinctIds)

      pub launched-InStep :
          (row : Row (Attrs k))
          → find_where (Table.has_id rid) (Table.table k w) ≡ some row
          → InStep rid k count [] (queueing head_task) rest_tasks (creating (counting row)) launched
      unfolding Table.table Table.update_row Table.set_rows Tasks.update_task Tasks.set_queued
          Table.set_total_tasks Table.set_status Tasks.stamp new_task
      launched-InStep row found = record {
        steps = launched-steps;
        unique =
            DistinctIds-update_where head_task.id queueing (λ x i. x.id) (w.tasks ++ rows_in) new;
        completed = tt;
        fresh = refl;
        waiting = inserted-AllPending e def (e.clock (drawn.calls + 1)) ss 2 (w.calls + 1);
        numbered = (refl, inserted-Numbered e def (e.clock (drawn.calls + 1)) ss 2 (w.calls + 1));
        size = ap suc (length-inserted e def (e.clock (drawn.calls + 1)) ss 2 (w.calls + 1));
        owned = ((refl, refl), inserted-owned e def (e.clock (drawn.calls + 1)) ss 2 (w.calls + 1));
        found_row =
            find_row k rid creating (tick (Table.update_row k rid counting stored)) (counting row)
              (λ x i. x.id) (find_row k rid counting stored row (λ x i. x.id) found);
      }

-- If the kind of the resource is registered, its id is not empty, the number of the steps fits an
-- int, no queue name is empty and no call fails, then a workflow of at least one step, for a
-- resource that has a row and no tasks yet, whose new rows leave the ids of all tasks distinct, is
-- submitted without an error; and then as many successful replies as it has steps, each to the
-- message published last, are handled without an error: the messages of all steps are published,
-- each once and in order, every step is completed, and the row is `running` and has counted them
-- all.
pub submit_workflow-HasRun :
    (m : Manager) (e : Env) (calm : IsFaultless e) (k : Kind) (rid az : String) (s : WorkflowStep)
    (ss : List WorkflowStep) (w : World) (row : Row (Attrs k)) (rs : List ReplyPayload)
    → IsKnown m rid k (length (s ∷ ss))
    → ((d : String) (p : ℕ) → (m.queue_resolver d p =? "") ≡ false)
    → DistinctIds (w.tasks ++ rows_in e k rid az s ss w)
    → select (Tasks.of_resource rid) w.tasks ≡ []
    → find_where (Table.has_id rid) (Table.table k w) ≡ some row
    → AllSuccessful rs
    → length rs ≡ length (s ∷ ss)
    → ((submit_workflow m (workflow k rid az (s ∷ ss)) e w).0 ≡ ok rid)
      × ((answer_all m rs e (submit_workflow m (workflow k rid az (s ∷ ss)) e w).1).0 ≡ ok tt)
      × ((answer_all m rs e (submit_workflow m (workflow k rid az (s ∷ ss)) e w).1).1.published
          ≡ w.published
            ++ map (λ t. step_message m t (pos (length (s ∷ ss)))) (rows_in e k rid az s ss w))
      × HasRun rid k
          (length rs)
          row
          (answer_all m rs e (submit_workflow m (workflow k rid az (s ∷ ss)) e w).1).1
unfolding made step_message Tasks.set_queued Tasks.update_task Table.update_row Table.set_rows
    Table.set_status Table.set_total_tasks
submit_workflow-HasRun m e calm k rid az s ss w row rs known routed new none_yet found good n =
    let total = length (s ∷ ss) in
    let head = head_task e k rid az s ss w in
    let rest = rest_tasks e k rid az s ss w in
    let w' = launched e k rid az s ss w m in
    let row' = creating e k rid az s ss w (counting e k rid az s ss w row) in
    let size : length rs ≡ 1 + length rest = omega (
      arith,
      n,
      length-inserted e (workflow k rid az (s ∷ ss)) (e.clock (w.calls + total + 1)) ss 2
          (w.calls + 1),
    ) in
    let (fine, sent, run) =
      answer_all-HasRun m rid k total known routed e calm rs [] (queueing e k rid az s ss w head)
        rest row' w' (launched-InStep e k rid az s ss w m new none_yet row found)
        (last_of-append w.published (step_message m head (pos total))) good size in
    rw (submitted-eq e k rid az s ss w m calm known.known new routed) (
      refl,
      fine,
      sent
          ∙ append_assoc w.published (step_message m head (pos total))
              (map (λ t. step_message m t (pos total)) rest),
      record {
        all_completed = run.all_completed;
        row_after = run.row_after;
        found_after = run.found_after;
        is_running = run.is_running;
        counted = run.counted;
      },
    )
