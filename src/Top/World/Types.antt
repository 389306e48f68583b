-- ===== src/Top/World/Types.antt =====
-- The rows of the top layer, as internal/models describes them, and what is outside the repository.
use vpc_workflow_demo.Prelude.{ℕ, String, Bool, List, Option, none, ◌≡◌}
use vpc_workflow_demo.Models.{
  ResourceStatus, VpcRequest, PccnRequest, SubnetRequest, CreateResponse,
}
use vpc_workflow_demo.World.{Result}

-- `AZDetail`
pub record AzDetail : Type 0 where
  pub status : String
  pub az_vpc_id : String
  pub error : String

-- `VPCDetail`
pub record VpcDetail : Type 0 where
  pub region : String
  pub azs : List String
  pub status : String
  pub subnets : List String
  pub error : String

-- `VPCRegistry`. A Go map is a list of its keys and values, each key once; a map that is nil is
-- empty, and so is one that is read from a JSON null.
pub record VpcRegistry : Type 0 where
  pub id : String
  pub vpc_name : String
  pub region : String
  pub vrf_name : String
  pub vlan_id : ℕ
  pub firewall_zone : String
  pub status : String
  pub saga_tx_id : String
  pub az_details : List (String × AzDetail)
  pub created_at : ℕ
  pub updated_at : ℕ

-- `SubnetRegistry`
pub record SubnetRegistry : Type 0 where
  pub id : String
  pub subnet_name : String
  pub vpc_name : String
  pub region : String
  pub az : String
  pub az_subnet_id : String
  pub cidr : String
  pub firewall_zone : String
  pub status : String
  pub created_at : ℕ
  pub updated_at : ℕ

-- `CIDRZoneMapping`
pub record CidrZoneMapping : Type 0 where
  pub id : String
  pub cidr : String
  pub cidr_start : ℕ
  pub cidr_end : ℕ
  pub vpc_name : String
  pub subnet_name : String
  pub region : String
  pub az : String
  pub firewall_zone : String
  pub created_at : ℕ

-- `PCCNRegistry`
pub record PccnRegistry : Type 0 where
  pub id : String
  pub pccn_name : String
  pub vpc1_name : String
  pub vpc1_region : String
  pub vpc2_name : String
  pub vpc2_region : String
  pub status : String
  pub tx_id : String
  pub vpc_details : List (String × VpcDetail)
  pub created_at : ℕ
  pub updated_at : ℕ

-- `ZoneInfo`
pub record ZoneInfo : Type 0 where
  pub vpc_name : String
  pub subnet_name : String
  pub region : String
  pub az : String
  pub firewall_zone : String
  pub cidr : String

-- `AZ`
pub record Az : Type 0 where
  pub id : String
  pub region : String
  pub name : String
  pub nsp_addr : String
  pub status : String
  pub last_heartbeat : ℕ

-- A value of the registry's store, until it expires.
pub record Stored : Type 0 where
  pub value : Az
  pub expires_at : ℕ

-- What a step of a saga sends: a request, or nothing.
pub data Payload : Type 0 where
  empty : Payload
  vpc_request : VpcRequest → Payload
  pccn_request : PccnRequest → Payload

-- A step of a saga, as the orchestrator describes it to the library. Its type is always `Sync`.
pub record SagaStepDef : Type 0 where
  pub name : String
  pub action_method : String
  pub action_url : String
  pub action_payload : Payload
  pub auth_ak : String
  pub compensate_method : String
  pub compensate_url : String

-- The timeout is a number of seconds.
pub record SagaDef : Type 0 where
  pub name : String
  pub payload : List (String × String)
  pub timeout : ℕ
  pub steps : List SagaStepDef

-- What a loop that waits in the background wakes up for: the service is shut down, the time is over,
-- or the ticker ticks.
pub data Event : Type 0 where
  done timeout ticked : Event

-- What `orchestrator.go` reads of the saga library's statuses.
pub data TxStatus : Type 0 where
  succeeded failed : TxStatus
  other : String → TxStatus

pub record SagaStep : Type 0 where
  pub succeeded : Bool
  pub last_error : String

pub record SagaStatus : Type 0 where
  pub status : TxStatus
  pub steps : List SagaStep

-- What the client of a zone reads of a resource: its status and its error.
pub record ZoneStatus : Type 0 where
  pub status : ResourceStatus
  pub error_message : String

pub record Top : Type 0 where
  pub calls : ℕ
  pub vpcs : List VpcRegistry
  pub subnets : List SubnetRegistry
  pub mappings : List CidrZoneMapping
  pub pccns : List PccnRegistry
  pub azs : List (String × Stored)
  pub regions : List (String × List String)

-- A network of `net.ParseCIDR` whose address has a form of 4 bytes: that address as a number, and how
-- many of its 32 bits are in the prefix.
pub record Network : Type 0 where
  pub address : ℕ
  pub ones : ℕ

-- What `net.ParseCIDR` answers; the address of a `v6` has no form of 4 bytes, so that `To4` is nil.
pub data IpNet : Type 0 where
  v4 : Network → IpNet
  v6 : IpNet

-- Everything that the repository does not implement. `health_check` and `saga_build` answer the
-- error of the call, if there is one; `saga_query` answers `none` for a nil status, and `parse_ip` is
-- `ParseIP` and `To4` of the standard library.
pub record TopEnv : Type 0 where
  pub fault : ℕ → Option String
  pub clock : ℕ → ℕ
  pub uuid : ℕ → String
  pub parse_cidr : String → Option IpNet
  pub parse_ip : String → Option ℕ
  pub saga_query : ℕ → String → Result (Option SagaStatus)
  pub vpc_status : ℕ → String → String → Result ZoneStatus
  pub pccn_status : ℕ → String → String → Result ZoneStatus
  pub health_check : ℕ → String → Option String
  pub saga_build : SagaDef → Option String
  pub saga_submit : ℕ → SagaDef → Result String
  pub create_subnet : ℕ → String → SubnetRequest → Result CreateResponse

pub record IsCalm (e : TopEnv) : Type 0 where
  pub no_fault : (n : ℕ) → e.fault n ≡ none
