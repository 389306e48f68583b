-- ===== src/Az/Compensated/Rules.antt =====
-- What keeps a predicate of the world through one pass over a resource.
use vpc_workflow_demo.Models.{Task, ResourceStatus, Kind}
use vpc_workflow_demo.World.{World, attempt, ask, task_info, Result, ok, err}
use vpc_workflow_demo.Prelude.{ℕ, String, List, ltb, ◌&&◌, ◌∷◌, ◌-◌, not, [], ◌=?◌, ◌==◌}
use vpc_workflow_demo.Dao.Table
use vpc_workflow_demo.Dao.Tasks
use vpc_workflow_demo.Dao.Tasks.{TaskStats}
use vpc_workflow_demo.World.Hoare.{
  Keeps, IsStable, Keeps-pure, Keeps-query, Keeps-attempt, Keeps-ignore, Keeps-now, Triple-bind,
  Triple-if,
}
use vpc_workflow_demo.Az.Orchestrator.{AzOrchestrator}
use vpc_workflow_demo.Az.Compensation.{
  in_flight, in_flight_of, any_in_flight, resource_has_in_flight_broker_task, fail_if_stale,
  compensate_by_stats, compensate_with, compensate_resource, is_final, max,
}

pub Keeps-ask : {P : World → Type 0} → Keeps P ask
unfolding ask
Keeps-ask = record { at = λ e w p. p }

pub Keeps-task_info :
    {P : World → Type 0} → IsStable P → (q id : String) → Keeps P (attempt (task_info q id))
unfolding attempt task_info
Keeps-task_info s q id = record { at = λ e w p. s.stable w p }

-- The questions that the loop asks change nothing but the count of the calls.
module _ {P : World → Type 0} (s : IsStable P) (o : AzOrchestrator) where
  in_flight-Keeps : (t : Task) → Keeps P (in_flight o t)
  unfolding in_flight
  in_flight-Keeps t = Triple-bind _ _ Keeps-ask (λ e.
      Triple-if (e.is_task_reader && not (t.asynq_task_id =? "")) _ _
        (Triple-bind _ _ (Keeps-task_info s _ _) (λ d. Keeps-pure _)) (Keeps-pure _))

  any_in_flight-Keeps : (ts : List Task) → Keeps P (any_in_flight o ts)
  unfolding any_in_flight
  any_in_flight-Keeps [] = Keeps-pure _
  any_in_flight-Keeps (t ∷ ts) =
      Triple-bind _ _ (in_flight-Keeps t)
        (λ b. Triple-if b _ _ (Keeps-pure _) (any_in_flight-Keeps ts))

  in_flight_of-Keeps : (r : Result (List Task)) → Keeps P (in_flight_of o r)
  unfolding in_flight_of
  in_flight_of-Keeps (ok ts) = any_in_flight-Keeps ts
  in_flight_of-Keeps (err x) = Keeps-pure _

  pub resource_has-Keeps : (id : String) → Keeps P (resource_has_in_flight_broker_task o id)
  unfolding resource_has_in_flight_broker_task Tasks.get_by_resource_id
  resource_has-Keeps id = Triple-bind _ _ (Keeps-attempt _ (Keeps-query s _)) in_flight_of-Keeps

  -- What may be written to one resource.
  module _ (k : Kind) (id : String)
      (write : (st : ResourceStatus) (x : String)
        → Keeps P ((Table.store k).update_status id st x)) where
    fail_if_stale-Keeps : (at : ℕ) → Keeps P (fail_if_stale k id at)
    unfolding fail_if_stale
    fail_if_stale-Keeps at =
        Triple-bind _ _ Keeps-now
          (λ t. Triple-if (ltb 300 (t - at)) _ _ (Keeps-ignore _ (write _ _)) (Keeps-pure _))

    by_stats-Keeps : (at n : ℕ) (t : TaskStats) → Keeps P (compensate_by_stats o k id at n t)
    unfolding compensate_by_stats
    by_stats-Keeps at n t = Triple-if ((t.total == 0) && (n == 0)) _ _ (Keeps-pure _) (
        Triple-if (ltb 0 t.completed && (t.completed == max t.total n)) _ _
          (Keeps-ignore _ (write ResourceStatus.running ""))
          (Triple-if (ltb 0 t.failed) _ _
            (Keeps-ignore _ (write ResourceStatus.failed "workflow step failed"))
            (Triple-bind _ _ (resource_has-Keeps id)
              (λ b. Triple-if b _ _ (Keeps-pure _) (fail_if_stale-Keeps at)))))

    with-Keeps : (at n : ℕ) (r : Result TaskStats) → Keeps P (compensate_with o k id at n r)
    unfolding compensate_with
    with-Keeps at n (ok t) = by_stats-Keeps at n t
    with-Keeps at n (err x) = Keeps-pure _

    pub resource-Keeps :
        (st : ResourceStatus) (at n : ℕ) → Keeps P (compensate_resource o k id st at n)
    unfolding compensate_resource Tasks.get_task_stats
    resource-Keeps st at n =
        Triple-if (is_final st) _ _ (Keeps-pure _)
          (Triple-bind _ _ (Keeps-attempt _ (Keeps-query s _)) (with-Keeps at n))
