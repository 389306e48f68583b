-- ===== src/Workflow/Inserted.antt =====
-- The rows that `SubmitWorkflow` of internal/orchestration/workflow.go inserts.
use vpc_workflow_demo.Models.{Task}
use vpc_workflow_demo.World.{Env}
use vpc_workflow_demo.Prelude.{
  ℕ, List, length, All, ◌∷◌, ◌≡◌, ◌+◌, map, ap, true, [], suc, text_eq_refl, refl,
}
use vpc_workflow_demo.Dao.Tasks
use vpc_workflow_demo.Workflow.Manager.{WorkflowStep, WorkflowDef}
use vpc_workflow_demo.Workflow.Steps.{Numbered, AllPending}
use vpc_workflow_demo.Workflow.Begin.{made}

-- The rows that are inserted.
abbrev pub inserted : Env → WorkflowDef → List WorkflowStep → ℕ → ℕ → ℕ → List Task
inserted e def ss order n t = map (Tasks.stamp t) (made e def ss order n)

module _ (e : Env) (def : WorkflowDef) (t : ℕ) where
  pub inserted-AllPending :
      (ss : List WorkflowStep) (order n : ℕ) → AllPending (inserted e def ss order n t)
  unfolding made Tasks.stamp
  inserted-AllPending [] order n = tt
  inserted-AllPending (s ∷ ss) order n = (refl, inserted-AllPending ss (order + 1) (n + 1))

  pub inserted-Numbered :
      (ss : List WorkflowStep) (order n : ℕ) → Numbered order (inserted e def ss order n t)
  unfolding made Tasks.stamp
  inserted-Numbered [] order n = tt
  inserted-Numbered (s ∷ ss) order n = (refl, inserted-Numbered ss (order + 1) (n + 1))

  pub length-inserted :
      (ss : List WorkflowStep) (order n : ℕ) → length (inserted e def ss order n t) ≡ length ss
  unfolding made
  length-inserted [] order n = refl
  length-inserted (s ∷ ss) order n = ap suc (length-inserted ss (order + 1) (n + 1))

  pub length-made :
      (ss : List WorkflowStep) (order n : ℕ) → length (made e def ss order n) ≡ length ss
  unfolding made
  length-made [] order n = refl
  length-made (s ∷ ss) order n = ap suc (length-made ss (order + 1) (n + 1))

  pub inserted-owned :
      (ss : List WorkflowStep) (order n : ℕ)
      → All
          (λ t. (t.resource_id ≡ def.resource_id) × (t.resource_type ≡ def.resource_type))
          (inserted e def ss order n t)
  unfolding made Tasks.stamp
  inserted-owned [] order n = tt
  inserted-owned (s ∷ ss) order n = ((refl, refl), inserted-owned ss (order + 1) (n + 1))

  pub inserted-of_resource :
      (ss : List WorkflowStep) (order n : ℕ)
      → All (λ x. Tasks.of_resource def.resource_id x ≡ true) (inserted e def ss order n t)
  unfolding made Tasks.stamp
  inserted-of_resource [] order n = tt
  inserted-of_resource (s ∷ ss) order n =
      (text_eq_refl def.resource_id, inserted-of_resource ss (order + 1) (n + 1))
