-- ===== src/Az/Create.antt =====
-- `CreateVPC`, `CreateSubnet` and `CreatePCCN` of internal/az/orchestrator/orchestrator.go.
use vpc_workflow_demo.World.{Exec, ◌>>=◌, new_uuid, ◌>>◌, or_wrap, pure}
use vpc_workflow_demo.Prelude.{String, List, ◌∷◌, [], ◌+++◌, map, ℕ}
use vpc_workflow_demo.Models.{
  PccnRequest, SubnetRequest, VpcRequest, resource_type, SubnetResource, Params, VpcResource,
  CreateResponse, vpc, pccn, Value, PccnResource, ResourceStatus, subnet,
}
use vpc_workflow_demo.Dao.Vpc
use vpc_workflow_demo.Dao.Subnet
use vpc_workflow_demo.Dao.Pccn
use vpc_workflow_demo.Workflow.Manager.{WorkflowStep, WorkflowDef}
use vpc_workflow_demo.Workflow.Submit.{submit_workflow}
use vpc_workflow_demo.Queue.{device_type_switch, device_type_firewall}
use vpc_workflow_demo.Az.Orchestrator.{AzOrchestrator, workflow_mgr, or_missing, respond, id_or_new}

-- A step with the retries that all methods use.
abbrev pub step : ℕ → String → String → String → Params → WorkflowStep
step priority task_type task_name device_type ps = record {
  task_type = task_type;
  task_name = task_name;
  device_type = device_type;
  priority = priority;
  max_retries = 0;
  payload = ps;
}

unfoldable pub build_vpc_task_params : VpcRequest → Params
build_vpc_task_params req =
    ("vpc_name", Value.text req.vpc_name)
    ∷ ("vrf_name", Value.text req.vrf_name)
    ∷ ("vlan_id", Value.number req.vlan_id)
    ∷ ("firewall_zone", Value.text req.firewall_zone)
    ∷ ("region", Value.text req.region)
    ∷ []

unfoldable pub vpc_row : AzOrchestrator → VpcRequest → String → VpcResource
vpc_row o req id = record {
  id = id;
  name = req.vpc_name;
  region = req.region;
  az = o.az;
  status = ResourceStatus.pending;
  error_message = "";
  total_tasks = 0;
  completed_tasks = 0;
  failed_tasks = 0;
  created_at = 0;
  updated_at = 0;
  attrs = record {
    vrf_name = req.vrf_name;
    vlan_id = req.vlan_id;
    firewall_zone = req.firewall_zone;
  };
}

unfoldable pub vpc_workflow : AzOrchestrator → VpcRequest → String → WorkflowDef
unfolding build_vpc_task_params
vpc_workflow o req id = record {
  resource_type = resource_type vpc;
  resource_id = id;
  az = o.az;
  steps =
      step o.priority_normal "create_vrf_on_switch" "创建VRF" device_type_switch
        (build_vpc_task_params req)
      ∷ step o.priority_normal "create_vlan_subinterface" "创建VLAN子接口" device_type_switch
          (build_vpc_task_params req)
      ∷ step o.priority_normal "create_firewall_zone" "创建防火墙安全区域" device_type_firewall
          (build_vpc_task_params req)
      ∷ [];
}

unfoldable pub create_vpc : AzOrchestrator → VpcRequest → Exec CreateResponse
unfolding vpc_row vpc_workflow
create_vpc o req = respond "VPC创建工作流已启动" (do
  id ← id_or_new req.vpc_id
  or_wrap "创建VPC资源记录失败" (Vpc.create (vpc_row o req id))
  workflow_id ← or_wrap "提交工作流失败" (submit_workflow (workflow_mgr o) (vpc_workflow o req id))
  pure (id, workflow_id))

unfoldable pub build_subnet_task_params : SubnetRequest → Params
build_subnet_task_params req =
    ("subnet_name", Value.text req.subnet_name)
    ∷ ("vpc_name", Value.text req.vpc_name)
    ∷ ("region", Value.text req.region)
    ∷ ("az", Value.text req.az)
    ∷ ("cidr", Value.text req.cidr)
    ∷ []

unfoldable pub subnet_row : AzOrchestrator → SubnetRequest → String → SubnetResource
subnet_row o req id = record {
  id = id;
  name = req.subnet_name;
  region = req.region;
  az = o.az;
  status = ResourceStatus.pending;
  error_message = "";
  total_tasks = 0;
  completed_tasks = 0;
  failed_tasks = 0;
  created_at = 0;
  updated_at = 0;
  attrs = record { vpc_name = req.vpc_name; cidr = req.cidr };
}

unfoldable pub subnet_workflow : AzOrchestrator → SubnetRequest → String → WorkflowDef
unfolding build_subnet_task_params
subnet_workflow o req id = record {
  resource_type = resource_type subnet;
  resource_id = id;
  az = o.az;
  steps =
      step o.priority_normal "create_subnet_on_switch" "创建子网" device_type_switch
        (build_subnet_task_params req)
      ∷ step o.priority_normal "configure_subnet_routing" "配置子网路由" device_type_switch
          (build_subnet_task_params req)
      ∷ [];
}

unfoldable pub create_subnet : AzOrchestrator → SubnetRequest → Exec CreateResponse
unfolding subnet_row subnet_workflow
create_subnet o req = respond "子网创建工作流已启动" (do
  id ← new_uuid
  or_wrap "创建子网资源记录失败" (Subnet.create (subnet_row o req id))
  workflow_id ← or_wrap "提交工作流失败" (submit_workflow (workflow_mgr o) (subnet_workflow o req id))
  pure (id, workflow_id))

unfoldable pub build_pccn_task_params : AzOrchestrator → String → PccnRequest → List String → Params
build_pccn_task_params o id req cidrs =
    ("pccn_id", Value.text id)
    ∷ ("pccn_name", Value.text req.pccn_name)
    ∷ ("vpc_name", Value.text req.vpc1.vpc_name)
    ∷ ("vpc_region", Value.text req.vpc1.region)
    ∷ ("peer_vpc_name", Value.text req.vpc2.vpc_name)
    ∷ ("peer_vpc_region", Value.text req.vpc2.region)
    ∷ ("az", Value.text o.az)
    ∷ ("subnets", Value.texts cidrs)
    ∷ []

unfoldable pub pccn_row : AzOrchestrator → PccnRequest → String → List String → PccnResource
pccn_row o req id cidrs = record {
  id = id;
  name = req.pccn_name;
  region = req.vpc1.region;
  az = o.az;
  status = ResourceStatus.pending;
  error_message = "";
  total_tasks = 0;
  completed_tasks = 0;
  failed_tasks = 0;
  created_at = 0;
  updated_at = 0;
  attrs = record {
    vpc_name = req.vpc1.vpc_name;
    peer_vpc_name = req.vpc2.vpc_name;
    peer_vpc_region = req.vpc2.region;
    subnets = cidrs;
  };
}

unfoldable pub pccn_workflow : AzOrchestrator → PccnRequest → String → List String → WorkflowDef
unfolding build_pccn_task_params
pccn_workflow o req id cidrs = record {
  resource_type = resource_type pccn;
  resource_id = id;
  az = o.az;
  steps =
      step o.priority_normal "create_pccn_connection" "创建PCCN连接" device_type_switch
        (build_pccn_task_params o id req cidrs)
      ∷ step o.priority_normal "configure_pccn_routing" "配置PCCN路由" device_type_switch
          (build_pccn_task_params o id req cidrs)
      ∷ [];
}

unfoldable pub create_pccn : AzOrchestrator → PccnRequest → Exec CreateResponse
unfolding pccn_row pccn_workflow
create_pccn o req = respond "PCCN创建工作流已启动" (do
  id ← id_or_new req.pccn_id
  v ←
      or_missing ("VPC不存在: " +++ req.vpc1.vpc_name) "查询VPC失败"
        (Vpc.get_by_name req.vpc1.vpc_name o.az)
  subnets ← or_wrap "获取子网列表失败" (Subnet.list_by_vpc_id v.id)
  let cidrs = map (λ (s : SubnetResource). s.attrs.cidr) subnets
  or_wrap "创建PCCN资源记录失败" (Pccn.create (pccn_row o req id cidrs))
  workflow_id ← or_wrap "提交工作流失败" (submit_workflow (workflow_mgr o) (pccn_workflow o req id cidrs))
  pure (id, workflow_id))
