-- ===== src/Top/Tests/Connection.antt =====
-- The polls for a PCCN of two zones, one of which fails.
use vpc_workflow_demo.Prelude.{◌≡◌, refl, true, [], ◌∷◌, ltb, ◌=?◌, if◌then◌else◌, find_where, some}
use vpc_workflow_demo.Models.{ResourceStatus, VpcRef}
use vpc_workflow_demo.World.{ok}
use vpc_workflow_demo.Top.World.{Top, TopEnv, Event, PccnRegistry, ZoneStatus}
use vpc_workflow_demo.Top.Pccn.{named}
use vpc_workflow_demo.Top.PccnWatch.{poll_pccn_az_worker_statuses, running_details}
use vpc_workflow_demo.Top.PccnWatch.Forgotten.{poll_pccn_az_worker_statuses-forgotten}
use vpc_workflow_demo.Top.Tests.{az_named, top_env, tables}

abbrev pub shop_vpc : VpcRef
shop_vpc = record { vpc_name = "shop"; region = "cn" }

abbrev pub office_vpc : VpcRef
office_vpc = record { vpc_name = "office"; region = "cn" }

abbrev bridge : PccnRegistry
bridge = record {
  id = "bridge-id";
  pccn_name = "bridge";
  vpc1_name = "shop";
  vpc1_region = "cn";
  vpc2_name = "office";
  vpc2_region = "cn";
  status = "creating";
  tx_id = "tx";
  vpc_details = [];
  created_at = 3;
  updated_at = 3;
}

abbrev bridged : Top
bridged = record tables { pccns = bridge ∷ [] }

abbrev answer : ResourceStatus → ZoneStatus
answer s = record { status = s; error_message = "" }

-- Zone a fails; zone b runs from the ninth call on.
abbrev uneven : TopEnv
uneven = record top_env {
  pccn_status = λ n addr name.
      if addr =? "http://a"
      then ok (answer ResourceStatus.failed)
      else (if ltb n 9
          then ok (answer ResourceStatus.creating)
          else ok (answer ResourceStatus.running));
}

poll_pccn_az_worker_statuses-forgotten_example :
    ((poll_pccn_az_worker_statuses
        (Event.ticked ∷ Event.ticked ∷ [])
        "bridge"
        (az_named "a" ∷ az_named "b" ∷ [])
        shop_vpc
        office_vpc
        []
        uneven
        bridged).0
      ≡ ok true)
    × ((x : PccnRegistry) × (find_where
            (named "bridge")
            (poll_pccn_az_worker_statuses
              (Event.ticked ∷ Event.ticked ∷ [])
              "bridge"
              (az_named "a" ∷ az_named "b" ∷ [])
              shop_vpc
              office_vpc
              []
              uneven
              bridged).1.pccns
          ≡ some x)
        × (x.status ≡ "running")
        × (x.vpc_details ≡ running_details shop_vpc office_vpc))
unfolding find_where
poll_pccn_az_worker_statuses-forgotten_example =
    poll_pccn_az_worker_statuses-forgotten [] "bridge" (az_named "a") (az_named "b") shop_vpc
      office_vpc uneven bridged bridge (answer ResourceStatus.failed)
      (answer ResourceStatus.creating) (answer ResourceStatus.running)
      (record { no_fault = λ n. refl }) refl refl refl refl refl refl refl refl
