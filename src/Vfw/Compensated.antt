-- ===== src/Vfw/Compensated.antt =====
-- The statuses that the compensation loop of internal/az/vfw/orchestrator/orchestrator.go leaves.
use vpc_workflow_demo.Prelude.{
  ℕ, zero, suc, String, List, [], ◌∷◌, ◌≡◌, true, ltb, ◌&&◌, ◌==◌, ◌-◌, ◌∙◌, ap, inl, inr,
  Bool-cases, All, text_eq_iff, ◌=?◌,
}
use vpc_workflow_demo.Models.{FirewallPolicy, ResourceStatus, firewall_policy}
use vpc_workflow_demo.World.{Env, World, Result, ok, err}
use vpc_workflow_demo.World.Hoare.{
  Keeps, Triple, Post, Keeps-pure, Keeps-query, Keeps-attempt, Keeps-ignore, Keeps-now, Keeps-world,
  Triple-bind, Triple-if, Triple-attempt,
}
use vpc_workflow_demo.Dao.Table
use vpc_workflow_demo.Dao.Tasks
use vpc_workflow_demo.Dao.Tasks.{TaskStats}
use vpc_workflow_demo.Az.Compensation.{is_final}
use vpc_workflow_demo.Az.Compensated.{
  RowStatus, HasStatus, HasStatus-stable, other-Keeps, Listed, list_all-Listed,
}
use vpc_workflow_demo.Az.Compensated.Rules.{resource_has-Keeps}
use vpc_workflow_demo.Vfw.Orchestrator.{VfwOrchestrator}
use vpc_workflow_demo.Vfw.Compensation.{
  fail_if_stale, compensate_by_stats, compensate_with, compensate_policy, compensate_policies,
  compensate_listed, run_compensation, compensation_ticks,
}

module _ (id : String) (st : ResourceStatus) (final : is_final st ≡ true)
    (o : VfwOrchestrator) where
  abbrev P : World → Type 0
  P = HasStatus id st

  -- What may be written to one policy.
  module _ (p : FirewallPolicy)
      (write : (s : ResourceStatus) (x : String)
        → Keeps P ((Table.store firewall_policy).update_status p.id s x)) where
    fail_if_stale-Keeps : Keeps P (fail_if_stale p)
    unfolding fail_if_stale
    fail_if_stale-Keeps = Triple-bind _ _ Keeps-now (λ t.
        Triple-if (ltb 300 (t - p.updated_at)) _ _ (Keeps-ignore _ (write _ _)) (Keeps-pure _))

    by_stats-Keeps : (t : TaskStats) → Keeps P (compensate_by_stats o p t)
    unfolding compensate_by_stats
    by_stats-Keeps t =
        Triple-if (ltb 0 t.total && (t.completed == t.total)) _ _ (Keeps-ignore _ (write _ _)) (
          Triple-if (ltb 0 t.failed) _ _ (Keeps-ignore _ (write _ _)) (
            Triple-bind _ _ (resource_has-Keeps (HasStatus-stable id st final o) o p.id)
              (λ b. Triple-if b _ _ (Keeps-pure _) fail_if_stale-Keeps)))

    with-Keeps : (r : Result TaskStats) → Keeps P (compensate_with o p r)
    unfolding compensate_with
    with-Keeps (ok t) = by_stats-Keeps t
    with-Keeps (err x) = Keeps-pure _

  policy-Keeps :
      (p : FirewallPolicy) → RowStatus id st firewall_policy p → Keeps P (compensate_policy o p)
  unfolding compensate_policy Tasks.get_task_stats
  policy-Keeps p h = elim (Bool-cases (p.id =? id)) [
    | inl t ↦
        let over : is_final p.status ≡ true =
          ap (λ s. is_final s) (h ((text_eq_iff p.id id).0 t)) ∙ final in
        rw over (Keeps-pure _)
    | inr f ↦ Triple-if (is_final p.status) _ _ (Keeps-pure _) (
        Triple-bind _ _ (Keeps-attempt _ (Keeps-query (HasStatus-stable id st final o) _))
          (with-Keeps p (other-Keeps id st final o firewall_policy p.id f)))
  ]

  policies-Keeps :
      (ps : List FirewallPolicy)
      → All (RowStatus id st firewall_policy) ps
      → Keeps P (compensate_policies o ps)
  unfolding compensate_policies
  policies-Keeps [] h = Keeps-pure _
  policies-Keeps (p ∷ ps) h = Triple-bind _ _ (policy-Keeps p h.0) (λ _. policies-Keeps ps h.1)

  compensate_listed-Keeps :
      (r : Result (List FirewallPolicy))
      → Triple
          (λ w. Post (Listed id st final o firewall_policy) P (r, w))
          (compensate_listed o r)
          (λ _. P)
          P
  unfolding compensate_listed Listed
  compensate_listed-Keeps (ok ps) = record { at = λ e w h. (policies-Keeps ps h.0).at e w h.1 }
  compensate_listed-Keeps (err x) = Keeps-pure _

  run-Keeps : Keeps P (run_compensation o)
  unfolding run_compensation
  run-Keeps =
      Triple-bind _ _ (Triple-attempt _ (list_all-Listed id st final o firewall_policy))
        compensate_listed-Keeps

  ticks-Keeps : (n : ℕ) → Keeps P (compensation_ticks o n)
  unfolding compensation_ticks
  ticks-Keeps zero = Keeps-pure _
  ticks-Keeps (suc n) = Triple-bind _ _ run-Keeps (λ _. ticks-Keeps n)

-- If the status of every row with an id is `running`, `failed` or `deleted`, it stays so through any
-- number of passes of the firewall's compensation loop, whichever calls fail.
pub vfw_compensation_ticks-HasStatus :
    (o : VfwOrchestrator) (n : ℕ) (id : String) (st : ResourceStatus) (e : Env) (w : World)
    → is_final st ≡ true
    → HasStatus id st w
    → HasStatus id st (compensation_ticks o n e w).1
vfw_compensation_ticks-HasStatus o n id st e w final h =
    Keeps-world (compensation_ticks o n) (ticks-Keeps id st final o n) e w h
