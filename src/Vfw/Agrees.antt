-- ===== src/Vfw/Agrees.antt =====
-- The compensation of internal/az/vfw/orchestrator/orchestrator.go against that of
-- internal/az/orchestrator/orchestrator.go.
use vpc_workflow_demo.Prelude.{
  ◌≡◌, ◌≤◌, refl, inl, inr, Bool-cases, Option-cases, ltb, ◌&&◌, ◌==◌, arith, count_where, false,
}
use vpc_workflow_demo.Models.{FirewallPolicy, firewall_policy}
use vpc_workflow_demo.World.{Env, World, attempt, db_query, query_unless, tick}
use vpc_workflow_demo.Dao.Tasks
use vpc_workflow_demo.Dao.Tasks.{TaskStats}
use vpc_workflow_demo.Az.Compensation.{is_final, max, compensate_resource}
use vpc_workflow_demo.Az.Compensation
use vpc_workflow_demo.Vfw.Orchestrator.{VfwOrchestrator}
use vpc_workflow_demo.Vfw.Compensation.{
  compensate_policy, compensate_by_stats, compensate_with, fail_if_stale,
}

-- Both loops do the same to counts of tasks there are, and that are not fewer than the row says.
by_stats-agrees :
    (o : VfwOrchestrator) (p : FirewallPolicy) (s : TaskStats) (e : Env) (w : World)
    → 1 ≤ s.total
    → p.total_tasks ≤ s.total
    → compensate_by_stats o p s e w
      ≡ Compensation.compensate_by_stats o firewall_policy p.id p.updated_at p.total_tasks s e w
unfolding compensate_by_stats Compensation.compensate_by_stats fail_if_stale
    Compensation.fail_if_stale
by_stats-agrees o p s e w some_task enough =
    let larger : max s.total p.total_tasks ≡ s.total = ground arith in
    let there : ((s.total == 0) && (p.total_tasks == 0)) ≡ false = ground arith in
    let same : (ltb 0 s.completed && (s.completed == s.total))
        ≡ (ltb 0 s.total && (s.completed == s.total)) =
      ground arith in
    rw (there, larger, same) refl

-- For a policy that has a task, and at least as many as `total_tasks` says, one pass of the
-- firewall's loop does the same as one of the other resources' loop would, whichever calls fail.
pub compensate_policy-compensate_resource :
    (o : VfwOrchestrator) (p : FirewallPolicy) (e : Env) (w : World)
    → 1 ≤ count_where (Tasks.of_resource p.id) w.tasks
    → p.total_tasks ≤ count_where (Tasks.of_resource p.id) w.tasks
    → compensate_policy o p e w
      ≡ compensate_resource o firewall_policy p.id p.status p.updated_at p.total_tasks e w
unfolding compensate_policy compensate_resource compensate_with Compensation.compensate_with
    Tasks.get_task_stats Tasks.stats_of attempt db_query query_unless
compensate_policy-compensate_resource o p e w some_task enough =
    elim (Bool-cases (is_final p.status)) [
      | inl over ↦ rw over refl
      | inr live ↦ elim (Option-cases (e.fault w.calls)) [
        | inl calm ↦ rw (live, calm) (by_stats-agrees o p _ e (tick w) some_task enough)
        | inr broken ↦ rw (live, broken.1) refl
      ]
    ]
