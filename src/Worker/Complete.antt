-- ===== src/Worker/Complete.antt =====
-- A workflow from its submission to its end, with the workers of the devices and the manager.
use vpc_workflow_demo.Models.{Kind, Task, Row, Attrs}
use vpc_workflow_demo.Prelude.{
  List, ◌=?◌, ℕ, String, ◌≡◌, map, false, All, ◌∷◌, refl, ◌+◌, length, [], ◌++◌, select, find_where,
  some, ap, arith,
}
use vpc_workflow_demo.World.{Env, World, IsFaultless, ok}
use vpc_workflow_demo.Decimal.{pos}
use vpc_workflow_demo.Dao.Tasks
use vpc_workflow_demo.Dao.Tasks.Keys.{DistinctIds}
use vpc_workflow_demo.Dao.Table
use vpc_workflow_demo.Workflow.Manager.{Manager, WorkflowStep, WorkflowDef, step_message}
use vpc_workflow_demo.Workflow.Submit.{new_task, submit_workflow}
use vpc_workflow_demo.Workflow.Begin.{made}
use mathlib.Core.Path.{subst}
use vpc_workflow_demo.Workflow.Inserted.{inserted, length-inserted}
use vpc_workflow_demo.Workflow.Run.{IsKnown}
use vpc_workflow_demo.Workflow.Run.Completes.{last_of-append, HasRun}
use vpc_workflow_demo.Workflow.Submitted.{
  workflow, rows_in, head_task, rest_tasks, counting, creating, queueing, launched, submitted-eq,
  launched-InStep,
}
use vpc_workflow_demo.Worker.Reply.{Context}
use vpc_workflow_demo.Worker.Loop.{HasWorker, rounds, rounds-HasRun}
use vpc_workflow_demo.Worker.Served.{Served}

abbrev devices : List WorkflowStep → List String
devices = map (λ s. s.device_type)

module _ (m : Manager) (c : Context) (e : Env) (def : WorkflowDef)
    (answered : (m.reply_queue_name =? "") ≡ false) (n : ℕ) where
  task-HasWorker :
      (s : WorkflowStep) (order : ℕ) (id : String) (t : ℕ)
      → Served c e s
      → HasWorker c e s.device_type
          (step_message m (Tasks.stamp t (new_task def s order id)) (pos n))
  unfolding step_message new_task Tasks.stamp
  task-HasWorker s order id t h = record {
    handler = h.handler;
    found = h.found;
    fine = λ step w known. h.fine _ m.reply_queue_name step w refl refl answered known;
  }

  inserted-HasWorker :
      (ss : List WorkflowStep) (order calls t : ℕ)
      → All (Served c e) ss
      → All
          (λ x. HasWorker c e x.device_type (step_message m x (pos n)))
          (inserted e def ss order calls t)
  unfolding made new_task Tasks.stamp
  inserted-HasWorker [] order calls t h = tt
  inserted-HasWorker (s ∷ ss) order calls t h = (
    task-HasWorker s order (e.uuid calls) t h.0,
    inserted-HasWorker ss (order + 1) (calls + 1) t h.1,
  )

devices-inserted :
    (e : Env) (def : WorkflowDef) (ss : List WorkflowStep) (order calls t : ℕ)
    → map (λ (x : Task). x.device_type) (inserted e def ss order calls t) ≡ devices ss
unfolding made new_task Tasks.stamp
devices-inserted e def [] order calls t = refl
devices-inserted e def (s ∷ ss) order calls t =
    rw (devices-inserted e def ss (order + 1) (calls + 1) t)

-- If the kind of the resource is registered, its id is not empty, the number of the steps fits an
-- int, no queue name is empty, no call fails, and the worker of each step's device has a handler
-- that answers no error on the step's payload, then a workflow of at least one step, for a resource
-- that has a row and no tasks yet, whose new rows leave the ids of all tasks distinct, is submitted
-- without an error; and then the workers of the steps' devices, in order, each followed by the
-- manager, answer no error, every step is completed, and the row is `running` and has counted them
-- all.
pub submit_workflow-rounds :
    (m : Manager) (c : Context) (e : Env) (k : Kind) (rid az : String) (s : WorkflowStep)
    (ss : List WorkflowStep) (w : World) (row : Row (Attrs k))
    → IsFaultless e
    → IsKnown m rid k (length (s ∷ ss))
    → ((d : String) (p : ℕ) → (m.queue_resolver d p =? "") ≡ false)
    → (m.reply_queue_name =? "") ≡ false
    → DistinctIds (w.tasks ++ rows_in e k rid az s ss w)
    → select (Tasks.of_resource rid) w.tasks ≡ []
    → find_where (Table.has_id rid) (Table.table k w) ≡ some row
    → All (Served c e) (s ∷ ss)
    → ((submit_workflow m (workflow k rid az (s ∷ ss)) e w).0 ≡ ok rid)
      × ((rounds m c (devices (s ∷ ss)) e (submit_workflow m (workflow k rid az (s ∷ ss)) e w).1).0
          ≡ ok tt)
      × HasRun rid k
          (length (s ∷ ss))
          row
          (rounds m c (devices (s ∷ ss)) e (submit_workflow m (workflow k rid az (s ∷ ss)) e w).1).1
unfolding new_task Tasks.stamp Tasks.set_queued step_message Table.set_status Table.set_total_tasks
    Tasks.update_task Table.update_row made Table.set_rows
submit_workflow-rounds m c e k rid az s ss w row calm known routed answered new none_yet found h =
    let total = length (s ∷ ss) in
    let head = head_task e k rid az s ss w in
    let rest = rest_tasks e k rid az s ss w in
    let row' = creating e k rid az s ss w (counting e k rid az s ss w row) in
    let all =
      inserted-HasWorker m c e (workflow k rid az (s ∷ ss)) answered total (s ∷ ss) 1 w.calls _ h in
    let (fine, run) =
      rounds-HasRun m rid k total known routed answered c e calm []
        (queueing e k rid az s ss w head) rest row' (launched e k rid az s ss w m)
        (launched-InStep e k rid az s ss w m new none_yet row found)
        (last_of-append w.published (step_message m head (pos total))) all in
    let w' = launched e k rid az s ss w m in
    let same : map (λ (x : Task). x.device_type) (queueing e k rid az s ss w head ∷ rest)
        ≡ devices (s ∷ ss) =
      ap (λ l. s.device_type ∷ l)
        (devices-inserted e (workflow k rid az (s ∷ ss)) ss 2 (w.calls + 1) _) in
    rw (submitted-eq e k rid az s ss w m calm known.known new routed) (
      refl,
      subst (λ l. (rounds m c l e w').0 ≡ ok tt) same fine,
      subst (λ l. HasRun rid k (length (s ∷ ss)) row (rounds m c l e w').1) same
          (record {
            all_completed = run.all_completed;
            row_after = run.row_after;
            found_after = run.found_after;
            is_running = run.is_running;
            counted = omega (
              arith,
              run.counted,
              length-inserted e (workflow k rid az (s ∷ ss)) (e.clock (w.calls + total + 1)) ss 2
                  (w.calls + 1),
            );
          }),
    )
