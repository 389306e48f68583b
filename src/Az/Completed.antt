-- ===== src/Az/Completed.antt =====
-- The compensation loop of internal/az/orchestrator/orchestrator.go on a resource whose tasks are
-- all completed.
use vpc_workflow_demo.Models.{Kind, ResourceStatus}
use vpc_workflow_demo.World.{
  attempt, ignore, db_query, query_unless, db_exec, exec_unless, pure, Env, World, IsFaultless, ok,
  tick,
}
use vpc_workflow_demo.Prelude.{
  ℕ, String, ◌≡◌, false, ◌≤◌, count_where, ◌+◌, ◌==◌, ◌&&◌, arith, ltb, true,
}
use vpc_workflow_demo.Dao.Table
use vpc_workflow_demo.Dao.Tasks
use vpc_workflow_demo.Az.Orchestrator.{AzOrchestrator}
use vpc_workflow_demo.Az.Compensation.{
  compensate_resource, compensate_with, compensate_by_stats, is_final, max,
}
use vpc_workflow_demo.Workflow.Counters.{completed_of}

-- If no call fails, a resource whose status is none of `running`, `failed` and `deleted`, which has
-- a completed task, and as many completed tasks as the larger of the number of its tasks and
-- `total_tasks`, is set to `running` without an error message, and nothing else changes.
pub compensate_resource-completed :
    (o : AzOrchestrator) (k : Kind) (id : String) (st : ResourceStatus) (at n : ℕ) (e : Env)
    (w : World)
    → IsFaultless e
    → is_final st ≡ false
    → 1 ≤ completed_of id w.tasks
    → completed_of id w.tasks ≡ max (count_where (Tasks.of_resource id) w.tasks) n
    → compensate_resource o k id st at n e w ≡ (
      ok tt,
      tick (
          Table.update_row k id
            (Table.set_status (e.clock (w.calls + 1)) ResourceStatus.running "")
            (tick w)),
    )
unfolding compensate_resource compensate_with compensate_by_stats Tasks.get_task_stats
    Tasks.stats_of attempt ignore db_query query_unless db_exec exec_unless Table.store pure
compensate_resource-completed o k id st at n e w calm live some_done all_done =
    let busy : ((count_where (Tasks.of_resource id) w.tasks == 0) && (n == 0)) ≡ false =
      ground arith in
    let done : (ltb 0 (completed_of id w.tasks)
          && (completed_of id w.tasks == max (count_where (Tasks.of_resource id) w.tasks) n))
        ≡ true =
      ground arith in
    rw (live, calm.no_fault, busy, done, calm.no_fault)
