-- ===== src/Top/Tests/Background.antt =====
-- The background work for a VPC of two zones.
use vpc_workflow_demo.Prelude.{◌≡◌, refl, some, true, List, [], ◌∷◌, find_where}
use vpc_workflow_demo.World.{ok}
use vpc_workflow_demo.Top.World.{set_key, Top, TopEnv, Az, Event, VpcRegistry, SagaStatus, TxStatus}
use vpc_workflow_demo.Top.Status.{
  compute_overall_status, overall_of, has_running, note_all, note_status,
}
use vpc_workflow_demo.Top.Vpc.{named}
use vpc_workflow_demo.Top.Watch.{
  watch_saga_and_poll_azs, wait_for_saga_completion, poll_az_worker_statuses, mark_all, detail,
  step_details,
}
use vpc_workflow_demo.Top.Watch.Ends.{watch_saga_and_poll_azs-ends}
use vpc_workflow_demo.Top.Watch.Consistent.{Consistent, poll_az_worker_statuses-Consistent}
use vpc_workflow_demo.Top.Watch.Interrupted.{watch_saga_and_poll_azs-interrupted}
use vpc_workflow_demo.Models.{ResourceStatus}
use vpc_workflow_demo.Top.Watch.Running.{IsRunning, poll_az_worker_statuses-running}
use vpc_workflow_demo.Top.Tests.{top_calm, az_named, top_env, zone_detail, tables}

abbrev two_zones : List Az
two_zones = az_named "a" ∷ az_named "b" ∷ []

abbrev shop : VpcRegistry
shop = record {
  id = "shop-id";
  vpc_name = "shop";
  region = "cn";
  vrf_name = "v";
  vlan_id = 7;
  firewall_zone = "z";
  status = "creating";
  saga_tx_id = "tx";
  az_details = ("a", zone_detail "creating") ∷ ("b", zone_detail "creating") ∷ [];
  created_at = 3;
  updated_at = 3;
}

abbrev registered : Top
registered = record tables { vpcs = shop ∷ [] }

watch_saga_and_poll_azs-ends_example :
    (watch_saga_and_poll_azs
      (Event.ticked ∷ Event.timeout ∷ [])
      (Event.done ∷ [])
      "tx"
      "shop"
      two_zones
      top_env
      registered).0
    ≡ ok true
watch_saga_and_poll_azs-ends_example =
    watch_saga_and_poll_azs-ends (Event.ticked ∷ Event.timeout ∷ []) (Event.done ∷ []) "tx" "shop"
      two_zones top_env registered refl refl

registered-Consistent : Consistent registered
unfolding compute_overall_status overall_of has_running note_all note_status
registered-Consistent = record { all_vpcs = (refl, tt) }

poll_az_worker_statuses-Consistent_example :
    Consistent
      (poll_az_worker_statuses
        (Event.ticked ∷ Event.timeout ∷ [])
        "shop"
        two_zones
        []
        top_env
        registered).1
poll_az_worker_statuses-Consistent_example =
    poll_az_worker_statuses-Consistent (Event.ticked ∷ Event.timeout ∷ []) "shop" two_zones []
      top_env registered registered-Consistent

abbrev under_way : SagaStatus
under_way = record {
  status = TxStatus.other "running";
  steps = record { succeeded = true; last_error = "" } ∷ [];
}

-- The saga is still under way.
abbrev busy_env : TopEnv
busy_env = record top_env { saga_query = λ n tx. ok (some under_way) }

watch_saga_and_poll_azs-interrupted_example :
    ((watch_saga_and_poll_azs (Event.done ∷ []) [] "tx" "shop" two_zones busy_env registered).0
      ≡ ok true)
    × ((x : VpcRegistry) × (find_where
            (named "shop")
            (wait_for_saga_completion
              (Event.done ∷ [])
              "tx"
              "shop"
              two_zones
              busy_env
              registered).1.vpcs
          ≡ some x)
        × (x.status ≡ "interrupted")
        × (x.az_details ≡ mark_all (detail "interrupted" "service shutdown") two_zones []))
    × ((x : VpcRegistry) × (find_where
            (named "shop")
            (watch_saga_and_poll_azs
              (Event.done ∷ [])
              []
              "tx"
              "shop"
              two_zones
              busy_env
              registered).1.vpcs
          ≡ some x)
        × (x.status ≡ "failed")
        × (x.az_details ≡ step_details under_way.steps two_zones []))
unfolding find_where
watch_saga_and_poll_azs-interrupted_example =
    watch_saga_and_poll_azs-interrupted [] [] "tx" "shop" two_zones busy_env registered shop
      under_way (record { no_fault = λ n. refl }) refl refl

top_env-IsRunning : IsRunning "shop" top_env
top_env-IsRunning = record {
  answer = λ n addr. record { status = ResourceStatus.running; error_message = "" };
  answers = λ n addr. refl;
  runs = λ n addr. refl;
}

poll_az_worker_statuses-running_example :
    ((poll_az_worker_statuses (Event.ticked ∷ []) "shop" two_zones [] top_env registered).0
      ≡ ok true)
    × ((x : VpcRegistry) × (find_where
            (named "shop")
            (poll_az_worker_statuses
              (Event.ticked ∷ [])
              "shop"
              two_zones
              []
              top_env
              registered).1.vpcs
          ≡ some x)
        × (x.status ≡ "running")
        × (x.az_details ≡ mark_all (detail "running" "") two_zones []))
unfolding find_where mark_all set_key
poll_az_worker_statuses-running_example =
    poll_az_worker_statuses-running [] "shop" (az_named "a") (az_named "b" ∷ []) top_env registered
      shop top_calm top_env-IsRunning refl refl
