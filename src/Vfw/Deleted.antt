-- ===== src/Vfw/Deleted.antt =====
-- A policy that `DeletePolicy` of internal/az/vfw/orchestrator/orchestrator.go deletes while its last
-- step is with the broker.
use vpc_workflow_demo.Decimal.{pos}
use vpc_workflow_demo.Prelude.{ℕ, ◌≡◌, refl, some, String, ◌=?◌, false, List, [], find_where, ◌+◌}
use vpc_workflow_demo.Models.{FirewallPolicy, Task, ResourceStatus, firewall_policy}
use vpc_workflow_demo.World.{
  Env, World, IsFaultless, ok, tick, ReplyPayload, ReplyStatus, or_wrap, wrap_result, db_query,
  query_unless, db_exec, exec_unless,
}
use vpc_workflow_demo.Dao.Table
use vpc_workflow_demo.Workflow.Manager.{Manager, step_message}
use vpc_workflow_demo.Workflow.Reply.{handle_reply}
use vpc_workflow_demo.Workflow.Run.{InStep, IsKnown, answer_of, find_row}
use vpc_workflow_demo.Workflow.Run.Completes.{HasRun, finished-HasRun, last_answered}
use vpc_workflow_demo.Az.Orchestrator.{or_missing, missing_as}
use vpc_workflow_demo.Vfw.Orchestrator.{VfwOrchestrator, delete_policy}

module _ (o : VfwOrchestrator) (name : String) (e : Env) (calm : IsFaultless e)
    (row : FirewallPolicy) (w : World) where
  abbrev removed : FirewallPolicy → FirewallPolicy
  removed = Table.set_status (e.clock (w.calls + 1)) ResourceStatus.deleted ""

  abbrev after : World
  after = tick (Table.update_row firewall_policy row.id removed (tick w))

  delete_policy-eq :
      find_where (Table.has_name name o.az) w.rows.policies ≡ some row
      → delete_policy o name e w ≡ (ok tt, after)
  unfolding delete_policy or_missing missing_as Table.get_by_name Table.one Table.table Table.store
      or_wrap wrap_result db_query query_unless db_exec exec_unless
  delete_policy-eq found = rw (calm.no_fault, found, calm.no_fault)

  module _ (total : ℕ) (done : List Task) (cur : Task)
      (s : InStep row.id firewall_policy total done cur [] row w) where
    deleted-InStep : InStep row.id firewall_policy total done cur [] (removed row) after
    unfolding Table.table Table.update_row Table.set_rows Table.set_status
    deleted-InStep = record {
      steps = s.steps;
      unique = s.unique;
      completed = s.completed;
      fresh = s.fresh;
      waiting = s.waiting;
      numbered = s.numbered;
      size = s.size;
      owned = s.owned;
      found_row = find_row firewall_policy row.id removed (tick w) row (λ x i. x.id) s.found_row;
    }

-- If no call fails, `DeletePolicy` makes a policy `deleted` whose last step is with the broker, and
-- leaves the step there: a successful reply to it, handled after that, makes the policy `running`
-- again.
pub delete_policy-HasRun :
    (o : VfwOrchestrator) (m : Manager) (name : String) (total : ℕ) (e : Env) (done : List Task)
    (cur : Task) (row : FirewallPolicy) (w : World) (r : ReplyPayload)
    → IsKnown m row.id firewall_policy total
    → ((d : String) (p : ℕ) → (m.queue_resolver d p =? "") ≡ false)
    → IsFaultless e
    → InStep row.id firewall_policy total done cur [] row w
    → find_where (Table.has_name name o.az) w.rows.policies ≡ some row
    → r.status ≡ ReplyStatus.success
    → ((delete_policy o name e w).0 ≡ ok tt)
      × ((gone : FirewallPolicy) × (find_where
              (Table.has_id row.id)
              (Table.table firewall_policy (delete_policy o name e w).1)
            ≡ some gone)
          × (gone.status ≡ ResourceStatus.deleted))
      × ((handle_reply m
            (some (answer_of (step_message m cur (pos total)) r))
            e
            (delete_policy o name e w).1).0
          ≡ ok tt)
      × HasRun row.id firewall_policy 1 row
          (handle_reply m
            (some (answer_of (step_message m cur (pos total)) r))
            e
            (delete_policy o name e w).1).1
unfolding Table.set_status
delete_policy-HasRun o m name total e done cur row w r known routed calm s found good =
    let s' = deleted-InStep o name e calm row w total done cur s in
    let w' = after o name e calm row w in
    let gone = removed o name e calm row w row in
    let run =
      finished-HasRun m row.id firewall_policy total known routed e calm done cur gone w' r s' in
    rw
      (
        delete_policy-eq o name e calm row w found,
        last_answered m row.id firewall_policy total known routed e calm done cur gone w' r s' good,
      )
      (
        refl,
        (gone, s'.found_row, refl),
        refl,
        record {
          all_completed = run.all_completed;
          row_after = run.row_after;
          found_after = run.found_after;
          is_running = run.is_running;
          counted = run.counted;
        },
      )
