-- ===== src/Top/Watch/Consistent.antt =====
-- The polls of internal/top/orchestrator/orchestrator.go keep the status of a VPC in step with the
-- details of its zones.
use vpc_workflow_demo.Prelude.{◌≡◌, refl, String, List, [], ◌∷◌, All, All-update_where}
use vpc_workflow_demo.World.{Result, ok, err}
use vpc_workflow_demo.Top.World.{Top, TopEnv, Az, AzDetail, Event, VpcRegistry}
use vpc_workflow_demo.Top.Status.{compute_overall_status}
use vpc_workflow_demo.Top.Vpc.{named, set_overall, update_vpc_overall_status, get_vpc_by_name}
use vpc_workflow_demo.Top.Rules.{
  Keeps, IsStable, Keeps-pure, Keeps-asked, Keeps-query, Keeps-exec, Keeps-attempt, Keeps-ignore,
  Keeps-if, Keeps-bind,
}
use vpc_workflow_demo.Top.Watch.{
  Round, ask_zones, zone_answer, member, change_details, save_answer, save_found,
  poll_az_worker_statuses,
}

-- The status is the overall status of the zones.
abbrev pub InStep : VpcRegistry → Type 0
InStep v = v.status ≡ compute_overall_status v.az_details

pub record Consistent (w : Top) : Type 0 where
  pub all_vpcs : All InStep w.vpcs

Consistent-stable : IsStable Consistent
Consistent-stable = record { stable = λ w h. record { all_vpcs = h.all_vpcs } }

overall-Keeps :
    (name : String) (ds : List (String × AzDetail))
    → Keeps Consistent (update_vpc_overall_status name (compute_overall_status ds) ds)
unfolding update_vpc_overall_status set_overall
overall-Keeps name ds = Keeps-exec Consistent-stable _ (λ t w h. record {
  all_vpcs =
      All-update_where InStep (named name) (set_overall t (compute_overall_status ds) ds)
        (λ v _. refl) w.vpcs h.all_vpcs;
})

save_answer-Keeps :
    (name : String) (change : List (String × AzDetail) → List (String × AzDetail))
    (r : Result VpcRegistry)
    → Keeps Consistent (save_answer name change r)
unfolding save_answer
save_answer-Keeps name change (ok v) = Keeps-ignore _ (overall-Keeps name (change v.az_details))
save_answer-Keeps name change (err x) = Keeps-pure _

change_details-Keeps :
    (name : String) (change : List (String × AzDetail) → List (String × AzDetail))
    → Keeps Consistent (change_details name change)
unfolding change_details get_vpc_by_name
change_details-Keeps name change =
    Keeps-bind _ _ (Keeps-attempt _ (Keeps-query Consistent-stable _))
      (λ r. save_answer-Keeps name change r)

save_found-Keeps :
    (name : String) (ds : List (String × AzDetail)) → Keeps Consistent (save_found name ds)
unfolding save_found
save_found-Keeps name [] = Keeps-pure _
save_found-Keeps name (d ∷ ds) = change_details-Keeps name _

ask_zones-Keeps :
    (name : String) (azs : List Az) (r : Round) → Keeps Consistent (ask_zones name azs r)
unfolding ask_zones
ask_zones-Keeps name [] r = Keeps-pure _
ask_zones-Keeps name (z ∷ zs) r = Keeps-if (member z.id r.settled) _ _ (ask_zones-Keeps name zs r) (
    Keeps-bind _ _ (Keeps-asked Consistent-stable _)
      (λ a. ask_zones-Keeps name zs (zone_answer z a r)))

poll-Keeps :
    (es : List Event) (name : String) (azs : List Az) (settled : List String)
    → Keeps Consistent (poll_az_worker_statuses es name azs settled)
unfolding poll_az_worker_statuses
poll-Keeps [] name azs settled = Keeps-pure _
poll-Keeps (Event.done ∷ es) name azs settled =
    Keeps-bind _ _ (change_details-Keeps name _) (λ _. Keeps-pure _)
poll-Keeps (Event.timeout ∷ es) name azs settled =
    Keeps-bind _ _ (save_found-Keeps name _) (λ _. Keeps-pure _)
poll-Keeps (Event.ticked ∷ es) name azs settled = Keeps-bind _ _ (ask_zones-Keeps name azs _) (λ r.
    Keeps-bind _ _ (save_found-Keeps name r.details)
      (λ _. Keeps-if r.all_settled _ _ (Keeps-pure _) (poll-Keeps es name azs r.settled)))

-- If the status of every VPC of the table is the overall status of its zones, it still is after any
-- number of polls of the zones, whatever they answer, whatever ends the loop, and whichever calls fail.
pub poll_az_worker_statuses-Consistent :
    (es : List Event) (name : String) (azs : List Az) (settled : List String) (e : TopEnv) (w : Top)
    → Consistent w
    → Consistent (poll_az_worker_statuses es name azs settled e w).1
poll_az_worker_statuses-Consistent es name azs settled e w h =
    (poll-Keeps es name azs settled).at e w h
