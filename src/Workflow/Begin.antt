-- ===== src/Workflow/Begin.antt =====
-- What `SubmitWorkflow` of internal/orchestration/workflow.go inserts when every call succeeds.
use vpc_workflow_demo.Models.{Task}
use vpc_workflow_demo.World.{
  World, new_uuid, Env, pure, tick, IsFaultless, db_query, db_exec, ok, exec_unless, query_unless,
  now,
}
use vpc_workflow_demo.Prelude.{
  ℕ, find_where, List, ◌+◌, ◌≡◌, suc, ◌++◌, ap, ◌∷◌, arith, [], length, none, refl, map, ◌=?◌,
  false, All-lookup,
}
use vpc_workflow_demo.Dao.Tasks
use vpc_workflow_demo.Dao.Tasks.Keys.{DistinctIds}
use vpc_workflow_demo.Workflow.Manager.{WorkflowStep, WorkflowDef}
use vpc_workflow_demo.Workflow.Submit.{new_task, build_tasks}
use vpc_workflow_demo.Workflow.Steps.{In-middle, differs_sym, append-cons}

-- The tasks of the steps, with identifiers drawn from call `n` on.
unfoldable pub made : Env → WorkflowDef → List WorkflowStep → ℕ → ℕ → List Task
unfolding new_task
made e def [] order n = []
made e def (s ∷ ss) order n = new_task def s order (e.uuid n) ∷ made e def ss (order + 1) (n + 1)

abbrev pub later : ℕ → World → World
later n w = record w { calls = w.calls + n }

later-zero : (w : World) → w ≡ later 0 w
later-zero w = ap (λ c. record w { calls = c }) (omega arith)

later-suc : (n : ℕ) (w : World) → later n (tick w) ≡ later (suc n) w
later-suc n w = ap (λ c. record w { calls = c }) (omega arith)

pub build_tasks-made :
    (e : Env) (def : WorkflowDef) (ss : List WorkflowStep) (order : ℕ) (w : World)
    → build_tasks def ss order e w ≡ (ok (made e def ss order w.calls), later (length ss) w)
unfolding build_tasks made new_uuid pure
build_tasks-made e def [] order w = rw (← later-zero w) refl
build_tasks-made e def (s ∷ ss) order w =
    rw (build_tasks-made e def ss (order + 1) (tick w), later-suc (length ss) w)

-- A row whose id is new is not found.
find_where-new :
    (xs : List Task) (t : Task) (ys : List Task)
    → DistinctIds (xs ++ t ∷ ys)
    → find_where (Tasks.has_id t.id) xs ≡ none
unfolding find_where
find_where-new [] t ys d = refl
find_where-new (x ∷ xs) t ys d =
    let differs : (t.id =? x.id) ≡ false =
      All-lookup (λ y. (y.id =? x.id) ≡ false) (xs ++ t ∷ ys) t d.0 (In-middle xs t ys) in
    rw (differs_sym t.id x.id differs) (find_where-new xs t ys d.1)

tasks_assoc : (xs ys zs : List Task) → (xs ++ ys) ++ zs ≡ xs ++ (ys ++ zs)
tasks_assoc [] ys zs = refl
tasks_assoc (x ∷ xs) ys zs = rw (tasks_assoc xs ys zs)

tasks_nil : (xs : List Task) → xs ++ [] ≡ xs
tasks_nil [] = refl
tasks_nil (x ∷ xs) = rw (tasks_nil xs)

module _ (e : Env) (calm : IsFaultless e) where
  insert_staged-eq :
      (staged ts : List Task) (w : World)
      → DistinctIds ((w.tasks ++ staged) ++ ts)
      → Tasks.insert_staged staged ts e w ≡ (ok (staged ++ ts), later (length ts) w)
  unfolding Tasks.insert_staged Tasks.id_is_free db_query query_unless pure
  insert_staged-eq staged [] w d = rw (tasks_nil staged, ← later-zero w) refl
  insert_staged-eq staged (t ∷ ts) w d =
      let d' : DistinctIds ((w.tasks ++ (staged ++ t ∷ [])) ++ ts) =
        rw (← tasks_assoc w.tasks staged (t ∷ []), ← append-cons (w.tasks ++ staged) t ts) d in
      rw (
        calm.no_fault,
        find_where-new (w.tasks ++ staged) t ts d,
        insert_staged-eq (staged ++ t ∷ []) ts (tick w) d',
        later-suc (length ts) w,
        append-cons staged t ts,
      )

  pub batch_create-eq :
      (ts : List Task) (w : World)
      → DistinctIds (w.tasks ++ map (Tasks.stamp (e.clock (w.calls + 1))) ts)
      → Tasks.batch_create ts e w ≡ (
        ok tt,
        tick (record (later (length (map (Tasks.stamp (e.clock (w.calls + 1))) ts)) (tick w)) {
          tasks = w.tasks ++ map (Tasks.stamp (e.clock (w.calls + 1))) ts;
        }),
      )
  unfolding Tasks.batch_create db_exec exec_unless now
  batch_create-eq ts w d =
      let stamped = map (Tasks.stamp (e.clock (w.calls + 1))) ts in
      rw (
        calm.no_fault,
        insert_staged-eq [] stamped (tick w) (rw (tasks_nil w.tasks) d),
        calm.no_fault,
      )
