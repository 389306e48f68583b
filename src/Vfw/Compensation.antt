-- ===== src/Vfw/Compensation.antt =====
-- The compensation loop of internal/az/vfw/orchestrator/orchestrator.go.
use vpc_workflow_demo.Prelude.{ℕ, zero, suc, List, [], ◌∷◌, if◌then◌else◌, ltb, ◌&&◌, ◌==◌, ◌-◌}
use vpc_workflow_demo.Models.{FirewallPolicy, ResourceStatus}
use vpc_workflow_demo.World.{Exec, Result, ok, err, attempt, ignore, pure, now, ◌>>=◌}
use vpc_workflow_demo.Dao.Policy
use vpc_workflow_demo.Dao.Tasks
use vpc_workflow_demo.Dao.Tasks.{TaskStats}
use vpc_workflow_demo.Az.Compensation.{is_final, resource_has_in_flight_broker_task}
use vpc_workflow_demo.Vfw.Orchestrator.{VfwOrchestrator}

-- Five minutes, in seconds.
abbrev pub stale_policy_timeout : ℕ
stale_policy_timeout = 300

unfoldable pub fail_if_stale : FirewallPolicy → Exec (Unit {0})
fail_if_stale p = do
  t ← now
  if ltb stale_policy_timeout (t - p.updated_at)
      then ignore (Policy.store.update_status p.id ResourceStatus.failed "workflow reply timeout")
      else pure tt

unfoldable pub compensate_by_stats : VfwOrchestrator → FirewallPolicy → TaskStats → Exec (Unit {0})
unfolding fail_if_stale
compensate_by_stats o p s =
    if ltb 0 s.total && (s.completed == s.total)
    then ignore (Policy.store.update_status p.id ResourceStatus.running "")
    else if ltb 0 s.failed
    then ignore (Policy.store.update_status p.id ResourceStatus.failed "workflow step failed")
    else do
      busy ← resource_has_in_flight_broker_task o p.id
      if busy then pure tt else fail_if_stale p

unfoldable pub compensate_with :
    VfwOrchestrator → FirewallPolicy → Result TaskStats → Exec (Unit {0})
unfolding compensate_by_stats
compensate_with o p (ok s) = compensate_by_stats o p s
compensate_with o p (err _) = pure tt

unfoldable pub compensate_policy : VfwOrchestrator → FirewallPolicy → Exec (Unit {0})
unfolding compensate_with
compensate_policy o p =
    if is_final p.status
    then pure tt
    else do stats ← attempt (Tasks.get_task_stats p.id); compensate_with o p stats

unfoldable pub compensate_policies : VfwOrchestrator → List FirewallPolicy → Exec (Unit {0})
compensate_policies o [] = pure tt
compensate_policies o (p ∷ ps) =
    let rest = compensate_policies o ps in compensate_policy o p >>= λ _. rest

unfoldable pub compensate_listed : VfwOrchestrator → Result (List FirewallPolicy) → Exec (Unit {0})
unfolding compensate_policies
compensate_listed o (ok ps) = compensate_policies o ps
compensate_listed o (err _) = pure tt

unfoldable pub run_compensation : VfwOrchestrator → Exec (Unit {0})
unfolding compensate_listed
run_compensation o = do ps ← attempt Policy.list_all; compensate_listed o ps

-- `StartCompensationTask` until its context is done: one pass for each tick of the timer.
unfoldable pub compensation_ticks : VfwOrchestrator → ℕ → Exec (Unit {0})
unfolding run_compensation
compensation_ticks o zero = pure tt
compensation_ticks o (suc n) = let rest = compensation_ticks o n in run_compensation o >>= λ _. rest
