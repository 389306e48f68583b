-- ===== src/Workflow/Run/Step.antt =====
-- One reply moves a workflow on by one step.
use vpc_workflow_demo.Models.{Task, TaskStatus, Kind, Row, Attrs, is_completed, is_pending}
use vpc_workflow_demo.World.{Env, World, ReplyPayload}
use vpc_workflow_demo.Prelude.{
  ℕ, List, ◌+◌, String, update_where, select, ◌++◌, ◌∷◌, ◌≡◌, [], select-update_where, All-append,
  true, ◌∙◌, first, length, refl, order_by, arith, some, select-and,
}
use vpc_workflow_demo.Dao.Tasks
use vpc_workflow_demo.Dao.Tasks.Keys.{DistinctIds, DistinctIds-update_where}
use vpc_workflow_demo.Dao.Table
use vpc_workflow_demo.Workflow.Manager.{Manager}
use vpc_workflow_demo.Workflow.Steps.{
  Numbered, AllCompleted, Numbered-right, Numbered-replace, update_where-current,
  DistinctIds-select, next_of, append-cons, length-middle, length-snoc,
}
use vpc_workflow_demo.Workflow.Advance.{advanced}
use vpc_workflow_demo.Workflow.Run.{InStep, find_row, context}

module _ (e : Env) (w : World) (cur : Task) (r : ReplyPayload) where
  abbrev pub completing : Task → Task
  completing = Tasks.set_result (e.clock (w.calls + 1)) TaskStatus.completed r.result ""

  abbrev pub queueing : Task → Task
  queueing =
      Tasks.set_queued (e.clock (w.calls + 1 + 1 + 1 + 1 + 1))
        (e.broker_id (w.calls + 1 + 1 + 1 + 1))

  abbrev pub written : List Task
  written = update_where (Tasks.has_id cur.id) completing w.tasks

  module _ (rid : String) (k : Kind) (total : ℕ) (done : List Task) (rest : List Task)
      (row : Row (Attrs k)) (s : InStep rid k total done cur rest row w) where
    written-DistinctIds : DistinctIds written
    unfolding Tasks.set_result
    written-DistinctIds = DistinctIds-update_where cur.id completing (λ x i. x.id) w.tasks s.unique

    distinct : DistinctIds (done ++ cur ∷ rest)
    distinct = rw (← s.steps) (DistinctIds-select (Tasks.of_resource rid) w.tasks s.unique)

    pub written-steps : select (Tasks.of_resource rid) written ≡ done ++ completing cur ∷ rest
    unfolding Tasks.set_result
    written-steps =
        rw
          (
            select-update_where (Tasks.of_resource rid) (Tasks.has_id cur.id) completing
                (λ x i. Tasks.of_resource rid x) w.tasks,
            s.steps,
          )
          (update_where-current completing done cur rest distinct)

    pub written-AllCompleted : AllCompleted (done ++ completing cur ∷ [])
    unfolding Tasks.set_result
    written-AllCompleted =
        All-append (λ t. is_completed t.status ≡ true) done (completing cur ∷ []) s.completed
          (refl, tt)

  module _ (rid : String) (k : Kind) (total : ℕ) (done : List Task) (next : Task) (rest : List Task)
      (row : Row (Attrs k)) (s : InStep rid k total done cur (next ∷ rest) row w) where
    past : List Task
    past = done ++ completing cur ∷ []

    past-steps : select (Tasks.of_resource rid) written ≡ past ++ next ∷ rest
    unfolding past
    past-steps =
        written-steps rid k total done (next ∷ rest) row s
        ∙ append-cons done (completing cur) (next ∷ rest)

    past-DistinctIds : DistinctIds (past ++ next ∷ rest)
    past-DistinctIds = rw (← past-steps) (
        DistinctIds-select (Tasks.of_resource rid) written
          (written-DistinctIds rid k total done (next ∷ rest) row s))

    past-Numbered : Numbered 1 (past ++ next ∷ rest)
    unfolding past Tasks.set_result
    past-Numbered =
        rw (← append-cons done (completing cur) (next ∷ rest))
          (Numbered-replace 1 done cur (completing cur) (next ∷ rest) refl s.numbered)

    past-AllCompleted : AllCompleted past
    unfolding past
    past-AllCompleted = written-AllCompleted rid k total done (next ∷ rest) row s

    pub next-waits :
        first (order_by Tasks.lower_order (select (Tasks.is_pending_of rid) written)) ≡ some next
    next-waits =
        rw (select-and (Tasks.of_resource rid) (λ t. is_pending t.status) written, past-steps)
          (next_of (1 + length past) past next rest past-AllCompleted s.waiting
            (Numbered-right 1 past (next ∷ rest) past-Numbered))

    past-size : length (past ++ queueing next ∷ rest) ≡ total
    unfolding past
    past-size = omega (
      arith,
      length-middle (done ++ completing cur ∷ []) (queueing next) rest,
      length-snoc done (completing cur),
      length-middle done cur (next ∷ rest),
      s.size,
    )

    past-queued :
        select (Tasks.of_resource rid) (update_where (Tasks.has_id next.id) queueing written)
        ≡ past ++ queueing next ∷ rest
    unfolding Tasks.set_queued
    past-queued =
        rw
          (
            select-update_where (Tasks.of_resource rid) (Tasks.has_id next.id) queueing
                (λ x i. Tasks.of_resource rid x) written,
            past-steps,
          )
          (update_where-current queueing past next rest past-DistinctIds)

    -- The step after it is with the broker now.
    pub advanced-InStep :
        (m : Manager)
        → InStep rid k total
            (done ++ completing cur ∷ [])
            (queueing next)
            rest
            (Table.add_completed (e.clock (w.calls + 1 + 1)) row)
            (advanced e (context rid k total done) k cur r m next w)
    unfolding Table.table Table.update_row Table.set_rows Tasks.update_task Tasks.set_queued
        Tasks.set_result Table.add_completed past
    advanced-InStep m = record {
      steps = past-queued;
      unique =
          DistinctIds-update_where next.id queueing (λ x i. x.id) written
            (written-DistinctIds rid k total done (next ∷ rest) row s);
      completed = past-AllCompleted;
      fresh = refl;
      waiting = s.waiting.1;
      numbered = Numbered-replace 1 past next (queueing next) rest refl past-Numbered;
      size = past-size;
      owned = s.owned.1;
      found_row =
          find_row k rid (Table.add_completed (e.clock (w.calls + 1 + 1))) w row (λ x i. x.id)
            s.found_row;
    }
