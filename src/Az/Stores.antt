-- ===== src/Az/Stores.antt =====
-- The stores that `NewAZOrchestrator` of internal/az/orchestrator/orchestrator.go registers.
use vpc_workflow_demo.Queue.{priority_queue_name}
use vpc_workflow_demo.Dao.Table.{ResourceStore}
use mathlib.Core.Option.{some-injective, some-ne-none}
use vpc_workflow_demo.Queue.{priority_suffix}
use vpc_workflow_demo.Prelude.{
  append_not_empty, ◌+++◌, ◌≡◌, some, String, Bool-cases, inl, inr, ◌=?◌, sym, ℕ, refl, false,
}
use vpc_workflow_demo.Models.{resource_type, Kind, pccn, subnet, vpc, firewall_policy}
use vpc_workflow_demo.Dao.Table
use vpc_workflow_demo.Workflow.Manager.{
  resource_store, find_store, register_resource_store, new_manager,
}
use vpc_workflow_demo.Workflow.Counters.{IsBacked}
use vpc_workflow_demo.Az.Orchestrator.{AzOrchestrator, workflow_mgr}

module _ (o : AzOrchestrator) where
  backed_by :
      (rt : String) (s : ResourceStore)
      → resource_store (workflow_mgr o) rt ≡ some s
      → (k : Kind) × (s ≡ Table.store k)
  unfolding workflow_mgr resource_store find_store register_resource_store new_manager
  backed_by rt s h = elim (Bool-cases (resource_type pccn =? rt)) [
    | inl t ↦ (pccn, sym (some-injective _ _ (rw t at h)))
    | inr f ↦ elim (Bool-cases (resource_type subnet =? rt)) [
      | inl t ↦ (subnet, sym (some-injective _ _ (rw (f, t) at h)))
      | inr g ↦ elim (Bool-cases (resource_type vpc =? rt)) [
        | inl t ↦ (vpc, sym (some-injective _ _ (rw (f, g, t) at h)))
        | inr i ↦ absurd (some-ne-none s (sym (rw (f, g, i) at h)))
      ]
    ]
  ]

  pub workflow_mgr-IsBacked : IsBacked (workflow_mgr o)
  workflow_mgr-IsBacked = record { backed = backed_by }

  pub workflow_mgr-knows :
      (k : Kind)
      → (k ≡ firewall_policy → ⊥)
      → resource_store (workflow_mgr o) (resource_type k) ≡ some (Table.store k)
  unfolding workflow_mgr resource_store find_store register_resource_store new_manager
  workflow_mgr-knows vpc h = refl
  workflow_mgr-knows subnet h = refl
  workflow_mgr-knows pccn h = refl
  workflow_mgr-knows firewall_policy h = absurd (h refl)

  -- No queue name of the zone is empty.
  pub workflow_mgr-routes :
      (d : String) (p : ℕ) → ((workflow_mgr o).queue_resolver d p =? "") ≡ false
  unfolding workflow_mgr register_resource_store new_manager priority_queue_name
  workflow_mgr-routes d p =
      append_not_empty "t" "asks:"
        (o.region +++ (":" +++ (o.az +++ (":" +++ (d +++ priority_suffix p)))))
