-- ===== src/Top/Watch/Interrupted.antt =====
-- A shutdown of internal/top/orchestrator/orchestrator.go while it waits for the saga of a VPC.
use vpc_workflow_demo.Prelude.{
  ◌≡◌, refl, String, true, some, List, [], ◌∷◌, ◌+◌, find_where, update_where,
  find_where-update_where, ◌∙◌,
}
use vpc_workflow_demo.World.{ok}
use vpc_workflow_demo.Top.World.{
  Top, TopEnv, IsCalm, Az, Event, VpcRegistry, SagaStatus, asked, ignore, pure, db_exec,
  exec_unless,
}
use vpc_workflow_demo.Top.Vpc.{named, set_overall, update_vpc_overall_status}
use vpc_workflow_demo.Top.Watch.{
  watch_saga_and_poll_azs, wait_for_saga_completion, mark_vpc_from_saga_failure, mark_answer,
  mark_all, detail, step_details,
}

-- If no statement fails, and the service is shut down while it waits for the saga, whose status can
-- still be read, then the VPC is written twice: it is `interrupted`, as are its zones, and then it is
-- `failed`, with the details of the saga's steps.
pub watch_saga_and_poll_azs-interrupted :
    (es fs : List Event) (tx name : String) (azs : List Az) (e : TopEnv) (w : Top) (v : VpcRegistry)
    (s : SagaStatus)
    → IsCalm e
    → find_where (named name) w.vpcs ≡ some v
    → e.saga_query (w.calls + 1) tx ≡ ok (some s)
    → ((watch_saga_and_poll_azs (Event.done ∷ es) fs tx name azs e w).0 ≡ ok true)
      × ((x : VpcRegistry) × (find_where
              (named name)
              (wait_for_saga_completion (Event.done ∷ es) tx name azs e w).1.vpcs
            ≡ some x)
          × (x.status ≡ "interrupted")
          × (x.az_details ≡ mark_all (detail "interrupted" "service shutdown") azs []))
      × ((x : VpcRegistry) × (find_where
              (named name)
              (watch_saga_and_poll_azs (Event.done ∷ es) fs tx name azs e w).1.vpcs
            ≡ some x)
          × (x.status ≡ "failed")
          × (x.az_details ≡ step_details s.steps azs []))
unfolding watch_saga_and_poll_azs wait_for_saga_completion mark_vpc_from_saga_failure mark_answer
    update_vpc_overall_status set_overall asked ignore pure db_exec exec_unless
watch_saga_and_poll_azs-interrupted es fs tx name azs e w v s calm found known =
    let marked =
      set_overall (e.clock w.calls) "interrupted"
        (mark_all (detail "interrupted" "service shutdown") azs []) in
    let failed = set_overall (e.clock (w.calls + 1 + 1)) "failed" (step_details s.steps azs []) in
    let first : find_where (named name) (update_where (named name) marked w.vpcs)
        ≡ some (marked v) =
      find_where-update_where (named name) (named name) marked (λ x i. named name x) w.vpcs
      ∙ rw found refl in
    let second : find_where (named name)
          (update_where (named name) failed (update_where (named name) marked w.vpcs))
        ≡ some (failed (marked v)) =
      find_where-update_where (named name) (named name) failed (λ x i. named name x)
        (update_where (named name) marked w.vpcs)
      ∙ rw first refl in
    rw (calm.no_fault, known, calm.no_fault)
      (refl, (marked v, first, refl, refl), (failed (marked v), second, refl, refl))
