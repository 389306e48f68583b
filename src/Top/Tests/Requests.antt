-- ===== src/Top/Tests/Requests.antt =====
-- Requests to a zone and to two zones that the registry knows.
use vpc_workflow_demo.Top.Create.{create_region_vpc}
use vpc_workflow_demo.World.{ok}
use vpc_workflow_demo.Models.{ResourceStatus}
use vpc_workflow_demo.Top.Vpc.{named}
use vpc_workflow_demo.Top.Watch.{mark_all, detail}
use vpc_workflow_demo.Top.Watch.Running.{IsRunning}
use vpc_workflow_demo.Top.Create.Completes.{GoesWell, create_region_vpc-run_job}
use vpc_workflow_demo.Top.Orchestrator.{Answer, Job, run_job}
use vpc_workflow_demo.Top.Registry.{
  get_region_azs, azs_of, get_azs, get_az, found_az, redis_get, redis_smembers, find_key,
}
use vpc_workflow_demo.Top.World.{SagaStatus, TxStatus, VpcRegistry}
use vpc_workflow_demo.Prelude.{
  refl, some, [], ◌∷◌, ◌⊎◌, arith, find_where, if◌then◌else◌, ◌=?◌, none, ◌≡◌, true,
}
use vpc_workflow_demo.Models.{VpcRequest}
use vpc_workflow_demo.Top.World.{
  attempt, pure, or_wrap, wrap_result, db_query, query_unless, call, ignore, Top, TopEnv, Event,
  PccnRegistry,
}
use vpc_workflow_demo.Top.Registry.{az_key}
use vpc_workflow_demo.Top.Connect.{delete_pccn, check_status, get_azs_from_region_and_vpc}
use vpc_workflow_demo.Top.Orchestrator.{submit_saga, respond}
use vpc_workflow_demo.Top.Vpc.{get_vpc_by_name}
use vpc_workflow_demo.Top.Pccn.{get_pccn_by_name}
use vpc_workflow_demo.Top.PccnWatch.{watch_pccn_deletion}
use vpc_workflow_demo.Top.Orchestrator.Refused.{
  Request, serve, IsAccepted, SameTables, serve-SameTables,
}
use vpc_workflow_demo.Top.Connect.Stuck.{watch_pccn_deletion-delete_pccn}
use vpc_workflow_demo.Top.Tests.{az_named, top_env, top_calm, tables}

abbrev shop_request : VpcRequest
shop_request = record {
  vpc_id = "";
  vpc_name = "shop";
  region = "cn";
  vrf_name = "v";
  vlan_id = 7;
  firewall_zone = "z";
}

abbrev zoned : Top
zoned = record tables {
  azs =
      (az_key "cn" "a", record { value = az_named "a"; expires_at = 90000 })
      ∷ (az_key "cn" "b", record { value = az_named "b"; expires_at = 90000 })
      ∷ [];
  regions = ("region:cn:azs", "a" ∷ "b" ∷ []) ∷ [];
}

-- The second zone is not healthy.
abbrev ailing : TopEnv
ailing = record top_env {
  health_check = λ n addr. if addr =? "http://b" then some "refused" else none;
}

serve-SameTables_example :
    IsAccepted (serve (Request.vpc_creation shop_request) ailing zoned).0
    ⊎ SameTables zoned (serve (Request.vpc_creation shop_request) ailing zoned).1
serve-SameTables_example = serve-SameTables (Request.vpc_creation shop_request) ailing zoned

abbrev bridge : PccnRegistry
bridge = record {
  id = "bridge-id";
  pccn_name = "bridge";
  vpc1_name = "shop";
  vpc1_region = "cn";
  vpc2_name = "office";
  vpc2_region = "cn";
  status = "running";
  tx_id = "tx";
  vpc_details = [];
  created_at = 3;
  updated_at = 3;
}

abbrev bridged : Top
bridged = record zoned { pccns = bridge ∷ [] }

-- The shutdown comes after the third tick.
watch_pccn_deletion-delete_pccn_example :
    ((watch_pccn_deletion
        (Event.ticked ∷ Event.ticked ∷ Event.ticked ∷ Event.done ∷ [])
        "tx"
        "bridge"
        top_env
        (delete_pccn "bridge" top_env bridged).1).0
      ≡ ok true)
    × ¬ IsAccepted
        (delete_pccn "bridge" top_env
          (watch_pccn_deletion
            (Event.ticked ∷ Event.ticked ∷ Event.ticked ∷ Event.done ∷ [])
            "tx"
            "bridge"
            top_env
            (delete_pccn "bridge" top_env bridged).1).1).0
unfolding find_where IsAccepted delete_pccn respond attempt pure or_wrap wrap_result
    get_pccn_by_name get_vpc_by_name db_query query_unless check_status
    vpc_workflow_demo.Top.Pccn.one vpc_workflow_demo.Top.Vpc.one get_azs_from_region_and_vpc
    submit_saga call ignore
watch_pccn_deletion-delete_pccn_example =
    watch_pccn_deletion-delete_pccn 3 "bridge" "tx" Event.done [] top_env top_env bridged bridge
      top_calm refl refl (λ k. refl) (ground arith)

abbrev done_saga : SagaStatus
done_saga = record { status = TxStatus.succeeded; steps = [] }

abbrev working : TopEnv
working = record top_env { saga_query = λ n tx. ok (some done_saga) }

working-GoesWell : GoesWell "tx" working
working-GoesWell = record {
  healthy = λ n addr. refl;
  builds = λ d. refl;
  submits = λ n d. refl;
  saga = done_saga;
  queried = λ n. refl;
  succeeded = refl;
}

working-IsRunning : IsRunning "shop" working
working-IsRunning = record {
  answer = λ n addr. record { status = ResourceStatus.running; error_message = "" };
  answers = λ n addr. refl;
  runs = λ n addr. refl;
}

create_region_vpc-run_job_example :
    ((a : Answer) × ((create_region_vpc shop_request working zoned).0 ≡ ok a)
      × (a.response.success ≡ true)
      × (a.background ≡ some (Job.watch_vpc "tx" "shop" (az_named "a" ∷ az_named "b" ∷ []))))
    × ((run_job
          (Event.ticked ∷ [])
          (Event.ticked ∷ [])
          (Job.watch_vpc "tx" "shop" (az_named "a" ∷ az_named "b" ∷ []))
          working
          (create_region_vpc shop_request working zoned).1).0
        ≡ ok true)
    × ((x : VpcRegistry) × (find_where
            (named "shop")
            (run_job
              (Event.ticked ∷ [])
              (Event.ticked ∷ [])
              (Job.watch_vpc "tx" "shop" (az_named "a" ∷ az_named "b" ∷ []))
              working
              (create_region_vpc shop_request working zoned).1).1.vpcs
          ≡ some x)
        × (x.status ≡ "running")
        × (x.az_details ≡ mark_all (detail "running" "") (az_named "a" ∷ az_named "b" ∷ []) []))
unfolding find_where get_region_azs azs_of get_azs get_az found_az redis_get redis_smembers find_key
    db_query query_unless or_wrap wrap_result attempt pure
create_region_vpc-run_job_example =
    create_region_vpc-run_job "tx" shop_request (az_named "a") (az_named "b" ∷ []) working zoned []
      [] (record { no_fault = λ n. refl }) working-GoesWell working-IsRunning refl (λ n. refl) refl
