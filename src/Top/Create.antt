-- ===== src/Top/Create.antt =====
-- `CreateRegionVPC` and `CreateAZSubnet` of internal/top/orchestrator/orchestrator.go.
pub mod Completes
use vpc_workflow_demo.Prelude.{
  String, Bool, true, false, none, some, List, [], ◌∷◌, ◌+++◌, map, if◌then◌else◌,
}
use vpc_workflow_demo.Models.{VpcRequest, SubnetRequest, CreateResponse}
use vpc_workflow_demo.World.{panic, Result, ok, err, fail}
use vpc_workflow_demo.Top.World.{
  Act, Az, VpcRegistry, SubnetRegistry, SagaDef, SagaStepDef, Payload, attempt, call, ignore,
  new_uuid, pure, raise, or_wrap, ◌>>=◌, ◌>>◌,
}
use vpc_workflow_demo.Top.Vpc.{register_vpc, get_vpc_by_name}
use vpc_workflow_demo.Top.Subnets.{register_subnet}
use vpc_workflow_demo.Top.Watch.{mark_all, detail}
use vpc_workflow_demo.Top.Registry.{get_az, get_region_azs, check_az_health}
use vpc_workflow_demo.Top.Orchestrator.{
  Answer, Job, respond, check_zones, submit_saga, top_nsp_access_key,
}

unfoldable pub vpc_saga : VpcRequest → String → List Az → SagaDef
vpc_saga req id azs = record {
  name = "region-vpc-create-" +++ req.vpc_name;
  payload = ("vpc_name", req.vpc_name) ∷ ("region", req.region) ∷ [];
  timeout = 60;
  steps = map step azs;
}
  where
    step : Az → SagaStepDef
    step z = record {
      name = "创建VPC-" +++ z.id;
      action_method = "POST";
      action_url = z.nsp_addr +++ "/api/v1/vpc";
      action_payload = Payload.vpc_request (record req { vpc_id = id });
      auth_ak = top_nsp_access_key;
      compensate_method = "DELETE";
      compensate_url = z.nsp_addr +++ ("/api/v1/vpc/" +++ req.vpc_name);
    }

unfoldable pub vpc_row : VpcRequest → String → String → List Az → VpcRegistry
unfolding mark_all
vpc_row req id tx azs = record {
  id = id;
  vpc_name = req.vpc_name;
  region = req.region;
  vrf_name = req.vrf_name;
  vlan_id = req.vlan_id;
  firewall_zone = req.firewall_zone;
  status = "creating";
  saga_tx_id = tx;
  az_details = mark_all (detail "creating" "") azs [];
  created_at = 0;
  updated_at = 0;
}

abbrev pub unhealthy : Az → String
unhealthy z = "预检查失败: AZ " +++ (z.id +++ " 不健康")

-- A row that cannot be registered is passed over.
unfoldable pub create_region_vpc : VpcRequest → Act Answer
unfolding vpc_saga vpc_row
create_region_vpc req = respond (do
  azs ← or_wrap "获取Region的AZ失败" (get_region_azs req.region)
  check_zones unhealthy azs
  id ← new_uuid
  tx ← submit_saga "构建SAGA定义失败" "提交SAGA事务失败" (vpc_saga req id azs)
  ignore (register_vpc (vpc_row req id tx azs))
  pure (record {
    response = record {
      success = true;
      message = "VPC创建任务已提交，事务ID: " +++ tx;
      id = "";
      workflow_id = tx;
    };
    background = some (Job.watch_vpc tx req.vpc_name azs);
  }))

abbrev pub zone_or_empty : Result VpcRegistry → String
zone_or_empty (ok v) = v.firewall_zone
zone_or_empty (err _) = ""

unfoldable pub subnet_row : SubnetRequest → String → CreateResponse → String → SubnetRegistry
subnet_row req id resp zone = record {
  id = id;
  subnet_name = req.subnet_name;
  vpc_name = req.vpc_name;
  region = req.region;
  az = req.az;
  az_subnet_id = resp.id;
  cidr = req.cidr;
  firewall_zone = zone;
  status = "running";
  created_at = 0;
  updated_at = 0;
}

abbrev pub passed : Result (Unit {0}) → Result (Unit {0})
passed (err panic) = err panic
passed _ = ok tt

-- An error is passed over, and a panic is not.
unfoldable pub pass_over : Act (Unit {0}) → Act (Unit {0})
pass_over m e w = let (r, w') = m e w in (passed r, w')

-- The subnet of a zone, registered with the firewall zone of its VPC, which is empty if the VPC cannot
-- be read. An error is passed over.
unfoldable pub sync_subnet : SubnetRequest → CreateResponse → Act (Unit {0})
unfolding subnet_row pass_over
sync_subnet req resp = do
  v ← attempt (get_vpc_by_name req.vpc_name)
  id ← new_uuid
  pass_over (register_subnet (subnet_row req id resp (zone_or_empty v)))

-- Both an error and a zone that is not healthy.
unfoldable pub if_healthy : String → Result Bool → Act (Unit {0})
if_healthy az (ok true) = pure tt
if_healthy az (ok false) = raise (fail ("AZ " +++ (az +++ " 不可用")))
if_healthy az (err _) = raise (fail ("AZ " +++ (az +++ " 不可用")))

unfoldable pub create_az_subnet : SubnetRequest → Act Answer
unfolding sync_subnet if_healthy
create_az_subnet req = respond (do
  az ← or_wrap "获取AZ信息失败" (get_az req.region req.az)
  healthy ← attempt (check_az_health req.region req.az)
  if_healthy req.az healthy
  resp ← or_wrap "创建子网失败" (call (λ e n. e.create_subnet n az.nsp_addr req))
  if resp.success then sync_subnet req resp else pure tt
  pure (record { response = resp; background = none }))
