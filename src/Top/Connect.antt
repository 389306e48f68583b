-- ===== src/Top/Connect.antt =====
-- `CreatePCCN`, `GetPCCNStatus` and `DeletePCCN` of internal/top/orchestrator/orchestrator.go.
pub mod Stuck
use vpc_workflow_demo.Prelude.{
  String, Bool, true, some, List, [], ◌∷◌, ◌+++◌, ◌=?◌, ◌||◌, map, if◌then◌else◌,
}
use vpc_workflow_demo.Models.{VpcRef, PccnRequest}
use vpc_workflow_demo.World.{Result, ok, err, fail}
use vpc_workflow_demo.Top.World.{
  Act, Az, VpcDetail, VpcRegistry, PccnRegistry, SagaDef, SagaStepDef, Payload, attempt, ignore,
  new_uuid, pure, raise, or_wrap, set_key, ◌>>=◌, ◌>>◌,
}
use vpc_workflow_demo.Top.Vpc.{get_vpc_by_name}
use vpc_workflow_demo.Top.Pccn.{register_pccn, get_pccn_by_name, update_pccn_status}
use vpc_workflow_demo.Top.PccnWatch.{vpc_key}
use vpc_workflow_demo.Top.Orchestrator.{
  Answer, Job, respond, check_zones, submit_saga, top_nsp_access_key, zones_of, all_zones,
}

abbrev pub mismatch : String → VpcRef → VpcRegistry → String
mismatch text ref v = text +++ (" Region不匹配: 请求=" +++ (ref.region +++ (", 实际=" +++ v.region)))

-- The VPC of a reference, in the region that the request says.
unfoldable pub referred : String → VpcRef → Act VpcRegistry
referred text ref = do
  v ← or_wrap (text +++ "不存在") (get_vpc_by_name ref.vpc_name)
  if v.region =? ref.region then pure v else raise (fail (mismatch text ref v))

unfoldable pub pccn_saga : PccnRequest → String → List Az → SagaDef
pccn_saga req id azs = record {
  name = "pccn-create-" +++ req.pccn_name;
  payload =
      ("pccn_name", req.pccn_name)
      ∷ ("vpc1_name", req.vpc1.vpc_name)
      ∷ ("vpc1_region", req.vpc1.region)
      ∷ ("vpc2_name", req.vpc2.vpc_name)
      ∷ ("vpc2_region", req.vpc2.region)
      ∷ [];
  timeout = 60;
  steps = map step azs;
}
  where
    step : Az → SagaStepDef
    step z = record {
      name = "提交PCCN创建-" +++ z.id;
      action_method = "POST";
      action_url = z.nsp_addr +++ "/api/v1/pccn";
      action_payload = Payload.pccn_request (record req { pccn_id = id });
      auth_ak = top_nsp_access_key;
      compensate_method = "DELETE";
      compensate_url = z.nsp_addr +++ ("/api/v1/pccn/" +++ req.pccn_name);
    }

abbrev pub id_of : Az → String
id_of z = z.id

abbrev pub creating_vpc : VpcRef → List Az → VpcDetail
creating_vpc v azs = record {
  region = v.region;
  azs = map id_of azs;
  status = "creating";
  subnets = [];
  error = "";
}

unfoldable pub creating_details : VpcRef → List Az → VpcRef → List Az → List (String × VpcDetail)
unfolding set_key
creating_details v1 azs1 v2 azs2 =
    set_key (vpc_key v2) (creating_vpc v2 azs2) (set_key (vpc_key v1) (creating_vpc v1 azs1) [])

unfoldable pub pccn_row : PccnRequest → String → String → List Az → List Az → PccnRegistry
unfolding creating_details
pccn_row req id tx azs1 azs2 = record {
  id = id;
  pccn_name = req.pccn_name;
  vpc1_name = req.vpc1.vpc_name;
  vpc1_region = req.vpc1.region;
  vpc2_name = req.vpc2.vpc_name;
  vpc2_region = req.vpc2.region;
  status = "creating";
  tx_id = tx;
  vpc_details = creating_details req.vpc1 azs1 req.vpc2 azs2;
  created_at = 0;
  updated_at = 0;
}

unfoldable pub create_pccn : PccnRequest → Act Answer
unfolding referred pccn_saga pccn_row
create_pccn req = respond (do
  v1 ← referred "VPC1" req.vpc1
  v2 ← referred "VPC2" req.vpc2
  azs1 ← zones_of v1.region v1.az_details
  azs2 ← zones_of v2.region v2.az_details
  let azs = all_zones azs1 azs2
  check_zones (λ z. "AZ " +++ (z.id +++ " 不健康")) azs
  id ← new_uuid
  tx ← submit_saga "构建Saga定义失败" "提交Saga事务失败" (pccn_saga req id azs)
  ignore (register_pccn (pccn_row req id tx azs1 azs2))
  pure (record {
    response = record {
      success = true;
      message = "PCCN创建任务已提交，事务ID: " +++ tx;
      id = id;
      workflow_id = tx;
    };
    background = some (Job.watch_pccn tx req.pccn_name azs req.vpc1 req.vpc2);
  }))

pub record PccnStatus : Type 0 where
  pub pccn_name : String
  pub overall_status : String
  pub vpc_details : List (String × VpcDetail)
  pub source : String

abbrev pub status_of : String → Result PccnRegistry → Act PccnStatus
status_of name (err _) = raise (fail ("PCCN " +++ (name +++ " not found")))
status_of name (ok p) = pure (record {
  pccn_name = p.pccn_name;
  overall_status = p.status;
  vpc_details = p.vpc_details;
  source = "database";
})

unfoldable pub get_pccn_status : String → Act PccnStatus
get_pccn_status name = do r ← attempt (get_pccn_by_name name); status_of name r

abbrev pub may_delete : String → Bool
may_delete s = (s =? "running") || ((s =? "partial_running") || (s =? "failed"))

unfoldable pub check_status : PccnRegistry → Act (Unit {0})
check_status p =
    if may_delete p.status then pure tt else raise (fail ("PCCN状态不允许删除: " +++ p.status))

abbrev pub zones_or_none : String → Result VpcRegistry → Act (List Az)
zones_or_none region (err _) = pure []
zones_or_none region (ok v) = zones_of region v.az_details

unfoldable pub get_azs_from_region_and_vpc : String → String → Act (List Az)
get_azs_from_region_and_vpc region name = do
  r ← attempt (get_vpc_by_name name)
  zones_or_none region r

unfoldable pub deletion_saga : String → PccnRegistry → List Az → SagaDef
deletion_saga name p azs = record {
  name = "pccn-delete-" +++ name;
  payload =
      ("pccn_name", name) ∷ ("vpc1_region", p.vpc1_region) ∷ ("vpc2_region", p.vpc2_region) ∷ [];
  timeout = 120;
  steps = map step azs;
}
  where
    step : Az → SagaStepDef
    step z = record {
      name = "删除PCCN-" +++ z.id;
      action_method = "DELETE";
      action_url = z.nsp_addr +++ ("/api/v1/pccn/" +++ name);
      action_payload = Payload.empty;
      auth_ak = top_nsp_access_key;
      compensate_method = "DELETE";
      compensate_url = z.nsp_addr +++ ("/api/v1/pccn/" +++ name);
    }

unfoldable pub delete_pccn : String → Act Answer
unfolding check_status get_azs_from_region_and_vpc deletion_saga
delete_pccn name = respond (do
  p ← or_wrap "PCCN不存在" (get_pccn_by_name name)
  check_status p
  azs1 ← get_azs_from_region_and_vpc p.vpc1_region p.vpc1_name
  azs2 ← get_azs_from_region_and_vpc p.vpc2_region p.vpc2_name
  tx ← submit_saga "构建Saga定义失败" "提交Saga事务失败" (deletion_saga name p (all_zones azs1 azs2))
  ignore (update_pccn_status name "deleting" [])
  pure (record {
    response = record {
      success = true;
      message = "PCCN删除任务已提交，事务ID: " +++ tx;
      id = p.id;
      workflow_id = tx;
    };
    background = some (Job.watch_deletion tx name);
  }))
