-- ===== src/Top/Watch.antt =====
-- What internal/top/orchestrator/orchestrator.go does in the background for a VPC: it waits for the saga
-- that calls the zones, and then polls the zones for the workers' results. A loop runs over the
-- events that it wakes up for; it answers `none`, or `false`, if it still waits after them.
pub mod Ends
pub mod Consistent
pub mod Interrupted
pub mod Merged
pub mod Running
use vpc_workflow_demo.Prelude.{
  String, Bool, true, false, Option, none, some, List, [], ◌∷◌, if◌then◌else◌, ◌=?◌, ◌||◌,
}
use vpc_workflow_demo.Models.{ResourceStatus}
use vpc_workflow_demo.World.{Result, ok, err}
use vpc_workflow_demo.Top.World.{
  Act, AzDetail, VpcRegistry, Az, Event, TxStatus, SagaStatus, SagaStep, ZoneStatus, asked, attempt,
  ignore, pure, set_key, ◌>>=◌, ◌>>◌,
}
use vpc_workflow_demo.Top.Status.{compute_overall_status}
use vpc_workflow_demo.Top.Vpc.{get_vpc_by_name, update_vpc_overall_status}

abbrev pub detail : String → String → AzDetail
detail status error = record { status = status; az_vpc_id = ""; error = error }

-- Each zone with the same detail, written over what is there.
unfoldable pub mark_all : AzDetail → List Az → List (String × AzDetail) → List (String × AzDetail)
unfolding set_key
mark_all d [] m = m
mark_all d (z ∷ zs) m = mark_all d zs (set_key z.id d m)

abbrev pub waited : TxStatus → Act (Option TxStatus) → Act (Option TxStatus)
waited TxStatus.succeeded rest = pure (some TxStatus.succeeded)
waited TxStatus.failed rest = pure (some TxStatus.failed)
waited (TxStatus.other s) rest = rest

abbrev pub saga_answer : Result (Option SagaStatus) → Act (Option TxStatus) → Act (Option TxStatus)
saga_answer (err _) rest = rest
saga_answer (ok none) rest = rest
saga_answer (ok (some s)) rest = waited s.status rest

unfoldable pub wait_for_saga_completion :
    List Event → String → String → List Az → Act (Option TxStatus)
unfolding mark_all
wait_for_saga_completion [] tx name azs = pure none
wait_for_saga_completion (Event.done ∷ es) tx name azs = do
  ignore (
      update_vpc_overall_status name "interrupted"
        (mark_all (detail "interrupted" "service shutdown") azs []))
  pure (some TxStatus.failed)
wait_for_saga_completion (Event.timeout ∷ es) tx name azs = do
  ignore
      (update_vpc_overall_status name "failed" (mark_all (detail "failed" "saga timeout") azs []))
  pure (some TxStatus.failed)
wait_for_saga_completion (Event.ticked ∷ es) tx name azs =
    let rest = wait_for_saga_completion es tx name azs in
    asked (λ e n. e.saga_query n tx) >>= λ a. saga_answer a rest

-- The step of a zone is at its place in the list of zones.
unfoldable pub step_details :
    List SagaStep → List Az → List (String × AzDetail) → List (String × AzDetail)
unfolding set_key
step_details [] azs m = m
step_details (s ∷ ss) [] m = m
step_details (s ∷ ss) (z ∷ zs) m =
    step_details ss zs (
      set_key z.id (if s.succeeded then detail "compensated" "" else detail "failed" s.last_error)
        m)

unfoldable pub mark_answer : String → List Az → Result (Option SagaStatus) → Act (Unit {0})
unfolding step_details
mark_answer name azs (err _) = pure tt
mark_answer name azs (ok none) = pure tt
mark_answer name azs (ok (some s)) =
    ignore (update_vpc_overall_status name "failed" (step_details s.steps azs []))

unfoldable pub mark_vpc_from_saga_failure : String → String → List Az → Act (Unit {0})
unfolding mark_answer
mark_vpc_from_saga_failure tx name azs = do
  a ← asked (λ e n. e.saga_query n tx)
  mark_answer name azs a

abbrev pub member : String → List String → Bool
member s [] = false
member s (x ∷ xs) = (x =? s) || member s xs

unfoldable pub unsettled : List String → List Az → List Az
unsettled settled [] = []
unsettled settled (z ∷ zs) =
    let rest = unsettled settled zs in if member z.id settled then rest else z ∷ rest

-- What one tick of the second loop has found.
pub record Round : Type 0 where
  pub settled : List String
  pub details : List (String × AzDetail)
  pub all_settled : Bool

abbrev pub settle : Az → AzDetail → Round → Round
settle z d r = record r { settled = z.id ∷ r.settled; details = set_key z.id d r.details }

abbrev pub by_status : Az → ZoneStatus → ResourceStatus → Round → Round
by_status z s ResourceStatus.running r = settle z (detail "running" "") r
by_status z s ResourceStatus.failed r = settle z (detail "failed" s.error_message) r
by_status z s _ r = record r { all_settled = false }

unfoldable pub zone_answer : Az → Result ZoneStatus → Round → Round
zone_answer z (err _) r = record r { all_settled = false }
zone_answer z (ok s) r = by_status z s s.status r

unfoldable pub ask_zones : String → List Az → Round → Act Round
unfolding zone_answer
ask_zones name [] r = pure r
ask_zones name (z ∷ zs) r =
    if member z.id r.settled
    then ask_zones name zs r
    else asked (λ e n. e.vpc_status n z.nsp_addr name) >>= λ a.
        ask_zones name zs (zone_answer z a r)

unfoldable pub merge :
    List (String × AzDetail) → List (String × AzDetail) → List (String × AzDetail)
unfolding set_key
merge [] m = m
merge ((k, d) ∷ ds) m = merge ds (set_key k d m)

-- The read, the change and the write of a VPC's details; a failed read is given up.
unfoldable pub save_answer :
    String
    → (List (String × AzDetail) → List (String × AzDetail))
    → Result VpcRegistry
    → Act (Unit {0})
save_answer name change (err _) = pure tt
save_answer name change (ok v) = ignore (
    update_vpc_overall_status name (compute_overall_status (change v.az_details))
      (change v.az_details))

unfoldable pub change_details :
    String → (List (String × AzDetail) → List (String × AzDetail)) → Act (Unit {0})
unfolding save_answer
change_details name change = do v ← attempt (get_vpc_by_name name); save_answer name change v

-- Nothing is read or written if no zone has settled.
unfoldable pub save_found : String → List (String × AzDetail) → Act (Unit {0})
unfolding change_details merge
save_found name [] = pure tt
save_found name (d ∷ ds) = change_details name (merge (d ∷ ds))

unfoldable pub poll_az_worker_statuses : List Event → String → List Az → List String → Act Bool
unfolding unsettled ask_zones save_found change_details mark_all
poll_az_worker_statuses [] name azs settled = pure false
poll_az_worker_statuses (Event.done ∷ es) name azs settled = do
  change_details name (mark_all (detail "interrupted" "service shutdown") (unsettled settled azs))
  pure true
poll_az_worker_statuses (Event.timeout ∷ es) name azs settled = do
  save_found name (mark_all (detail "failed" "worker poll timeout") (unsettled settled azs) [])
  pure true
poll_az_worker_statuses (Event.ticked ∷ es) name azs settled =
    ask_zones name azs (record { settled = settled; details = []; all_settled = true }) >>= λ r.
    let rest = poll_az_worker_statuses es name azs r.settled in
    save_found name r.details >>= λ _. if r.all_settled then pure true else rest

-- The second loop starts if the saga succeeded; `es` and `fs` are the events of the two loops.
abbrev pub after_wait : List Event → String → String → List Az → Option TxStatus → Act Bool
after_wait fs tx name azs none = pure false
after_wait fs tx name azs (some TxStatus.succeeded) = poll_az_worker_statuses fs name azs []
after_wait fs tx name azs (some _) = do mark_vpc_from_saga_failure tx name azs; pure true

unfoldable pub watch_saga_and_poll_azs :
    List Event → List Event → String → String → List Az → Act Bool
unfolding wait_for_saga_completion poll_az_worker_statuses mark_vpc_from_saga_failure
watch_saga_and_poll_azs es fs tx name azs = do
  s ← wait_for_saga_completion es tx name azs
  after_wait fs tx name azs s
