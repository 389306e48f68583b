-- ===== src/Top/PccnWatch.antt =====
-- What internal/top/orchestrator/orchestrator.go does in the background for a PCCN: as for a VPC, it waits
-- for the saga that calls the zones, and then polls the zones; and it waits for the saga of a deletion.
pub mod Forgotten
use vpc_workflow_demo.Prelude.{
  String, Bool, true, false, Option, none, some, List, [], ◌∷◌, if◌then◌else◌, ◌+++◌,
}
use vpc_workflow_demo.Models.{ResourceStatus, VpcRef}
use vpc_workflow_demo.World.{Result, ok, err}
use vpc_workflow_demo.Top.World.{
  Act, VpcDetail, Az, Event, TxStatus, SagaStatus, ZoneStatus, asked, ignore, pure, set_key, ◌>>=◌,
  ◌>>◌,
}
use vpc_workflow_demo.Top.Pccn.{update_pccn_status, delete_pccn}
use vpc_workflow_demo.Top.Watch.{member, saga_answer}

unfoldable pub wait_for_pccn_saga_completion : List Event → String → String → Act (Option TxStatus)
wait_for_pccn_saga_completion [] tx name = pure none
wait_for_pccn_saga_completion (Event.done ∷ es) tx name = do
  ignore (update_pccn_status name "interrupted" [])
  pure (some TxStatus.failed)
wait_for_pccn_saga_completion (Event.timeout ∷ es) tx name = do
  ignore (update_pccn_status name "failed" [])
  pure (some TxStatus.failed)
wait_for_pccn_saga_completion (Event.ticked ∷ es) tx name =
    let rest = wait_for_pccn_saga_completion es tx name in
    asked (λ e n. e.saga_query n tx) >>= λ a. saga_answer a rest

unfoldable pub mark_pccn_from_saga_failure : String → Act (Unit {0})
mark_pccn_from_saga_failure name = ignore (update_pccn_status name "failed" [])

-- What one tick has found; a failure is noted for this tick only.
pub record Round : Type 0 where
  pub settled : List String
  pub has_failed : Bool
  pub all_settled : Bool

abbrev pub by_status : Az → ResourceStatus → Round → Round
by_status z ResourceStatus.running r = record r { settled = z.id ∷ r.settled }
by_status z ResourceStatus.failed r = record r { settled = z.id ∷ r.settled; has_failed = true }
by_status z _ r = record r { all_settled = false }

unfoldable pub zone_answer : Az → Result ZoneStatus → Round → Round
zone_answer z (err _) r = record r { all_settled = false }
zone_answer z (ok s) r = by_status z s.status r

unfoldable pub ask_zones : String → List Az → Round → Act Round
unfolding zone_answer
ask_zones name [] r = pure r
ask_zones name (z ∷ zs) r =
    if member z.id r.settled
    then ask_zones name zs r
    else asked (λ e n. e.pccn_status n z.nsp_addr name) >>= λ a.
        ask_zones name zs (zone_answer z a r)

abbrev pub vpc_key : VpcRef → String
vpc_key v = v.region +++ ("/" +++ v.vpc_name)

abbrev pub running_vpc : VpcRef → VpcDetail
running_vpc v = record { region = v.region; azs = []; status = "running"; subnets = []; error = "" }

unfoldable pub running_details : VpcRef → VpcRef → List (String × VpcDetail)
unfolding set_key
running_details vpc1 vpc2 =
    set_key (vpc_key vpc2) (running_vpc vpc2) (set_key (vpc_key vpc1) (running_vpc vpc1) [])

unfoldable pub save_end : Bool → String → VpcRef → VpcRef → Act (Unit {0})
unfolding running_details
save_end has_failed name vpc1 vpc2 =
    if has_failed
    then ignore (update_pccn_status name "partial_running" [])
    else ignore (update_pccn_status name "running" (running_details vpc1 vpc2))

unfoldable pub poll_pccn_az_worker_statuses :
    List Event → String → List Az → VpcRef → VpcRef → List String → Act Bool
unfolding ask_zones save_end
poll_pccn_az_worker_statuses [] name azs vpc1 vpc2 settled = pure false
poll_pccn_az_worker_statuses (Event.done ∷ es) name azs vpc1 vpc2 settled = do
  ignore (update_pccn_status name "interrupted" [])
  pure true
poll_pccn_az_worker_statuses (Event.timeout ∷ es) name azs vpc1 vpc2 settled = do
  ignore (update_pccn_status name "failed" [])
  pure true
poll_pccn_az_worker_statuses (Event.ticked ∷ es) name azs vpc1 vpc2 settled =
    ask_zones name azs (record { settled = settled; has_failed = false; all_settled = true })
    >>= λ r.
        let rest = poll_pccn_az_worker_statuses es name azs vpc1 vpc2 r.settled in
        if r.all_settled then (do save_end r.has_failed name vpc1 vpc2; pure true) else rest

abbrev pub after_wait : List Event → String → List Az → VpcRef → VpcRef → Option TxStatus → Act Bool
after_wait fs name azs vpc1 vpc2 none = pure false
after_wait fs name azs vpc1 vpc2 (some TxStatus.succeeded) =
    poll_pccn_az_worker_statuses fs name azs vpc1 vpc2 []
after_wait fs name azs vpc1 vpc2 (some _) = do mark_pccn_from_saga_failure name; pure true

unfoldable pub watch_pccn_saga_and_poll_azs :
    List Event → List Event → String → String → List Az → VpcRef → VpcRef → Act Bool
unfolding wait_for_pccn_saga_completion poll_pccn_az_worker_statuses mark_pccn_from_saga_failure
watch_pccn_saga_and_poll_azs es fs tx name azs vpc1 vpc2 = do
  s ← wait_for_pccn_saga_completion es tx name
  after_wait fs name azs vpc1 vpc2 s

abbrev pub deletion : String → TxStatus → Act Bool → Act Bool
deletion name TxStatus.succeeded rest = do ignore (delete_pccn name); pure true
deletion name TxStatus.failed rest = do ignore (update_pccn_status name "failed" []); pure true
deletion name (TxStatus.other s) rest = rest

abbrev pub deletion_answer : String → Result (Option SagaStatus) → Act Bool → Act Bool
deletion_answer name (err _) rest = rest
deletion_answer name (ok none) rest = rest
deletion_answer name (ok (some s)) rest = deletion name s.status rest

-- A shutdown or the end of the time leaves the row as it is.
unfoldable pub watch_pccn_deletion : List Event → String → String → Act Bool
watch_pccn_deletion [] tx name = pure false
watch_pccn_deletion (Event.done ∷ es) tx name = pure true
watch_pccn_deletion (Event.timeout ∷ es) tx name = pure true
watch_pccn_deletion (Event.ticked ∷ es) tx name =
    let rest = watch_pccn_deletion es tx name in
    asked (λ e n. e.saga_query n tx) >>= λ a. deletion_answer name a rest
