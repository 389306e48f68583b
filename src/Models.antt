-- ===== src/Models.antt =====
-- internal/models/resource.go, types.go and firewall.go: statuses, rows, tasks and requests.
-- A time is a number of seconds. A nullable text column is a text, with the empty text for NULL,
-- which is what `scanTask` and the other readers make of it.
use vpc_workflow_demo.Prelude.{ℕ, String, Bool, true, false, Option, List}

pub data ResourceStatus : Type 0 where
  pending creating running failed deleting deleted : ResourceStatus

pub data TaskStatus : Type 0 where
  pending queued running completed failed cancelled : TaskStatus

abbrev pub task_status_text : TaskStatus → String
task_status_text TaskStatus.pending = "pending"
task_status_text TaskStatus.queued = "queued"
task_status_text TaskStatus.running = "running"
task_status_text TaskStatus.completed = "completed"
task_status_text TaskStatus.failed = "failed"
task_status_text TaskStatus.cancelled = "cancelled"

-- The tables that hold resources: one for each registered resource type.
pub data Kind : Type 0 where
  vpc subnet pccn firewall_policy : Kind

-- `models.ResourceType` is a string type; these are its declared values.
abbrev pub resource_type : Kind → String
resource_type vpc = "vpc"
resource_type subnet = "subnet"
resource_type pccn = "pccn"
resource_type firewall_policy = "firewall_policy"

pub record VpcAttrs : Type 0 where
  pub vrf_name : String
  pub vlan_id : ℕ
  pub firewall_zone : String

pub record SubnetAttrs : Type 0 where
  pub vpc_name : String
  pub cidr : String

pub record PccnAttrs : Type 0 where
  pub vpc_name : String
  pub peer_vpc_name : String
  pub peer_vpc_region : String
  pub subnets : List String

pub record PolicyAttrs : Type 0 where
  pub source_zone : String
  pub dest_zone : String
  pub source_ip : String
  pub dest_ip : String
  pub source_port : String
  pub dest_port : String
  pub protocol : String
  pub action : String
  pub description : String

-- The columns that belong to one table only.
abbrev pub Attrs : Kind → Type 0
Attrs vpc = VpcAttrs
Attrs subnet = SubnetAttrs
Attrs pccn = PccnAttrs
Attrs firewall_policy = PolicyAttrs

-- The columns that the four resource tables share, and the table's own.
pub record Row (A : Type 0) : Type 0 where
  pub id : String
  pub name : String
  pub region : String
  pub az : String
  pub status : ResourceStatus
  pub error_message : String
  pub total_tasks : ℕ
  pub completed_tasks : ℕ
  pub failed_tasks : ℕ
  pub created_at : ℕ
  pub updated_at : ℕ
  pub attrs : A

-- `VPCResource`, `SubnetResource`, `PCCNResource` and `FirewallPolicy`.
abbrev pub VpcResource : Type 0
VpcResource = Row VpcAttrs

abbrev pub SubnetResource : Type 0
SubnetResource = Row SubnetAttrs

abbrev pub PccnResource : Type 0
PccnResource = Row PccnAttrs

abbrev pub FirewallPolicy : Type 0
FirewallPolicy = Row PolicyAttrs

pub data Value : Type 0 where
  text : String → Value
  number : ℕ → Value
  texts : List String → Value
  flag : Bool → Value

-- A JSON object that the code marshals from a map: its keys and values.
abbrev pub Params : Type 0
Params = List (String × Value)

pub record Task : Type 0 where
  pub id : String
  pub resource_type : String
  pub resource_id : String
  pub task_type : String
  pub task_name : String
  pub task_order : ℕ
  pub task_params : Params
  pub status : TaskStatus
  pub priority : ℕ
  pub device_type : String
  pub asynq_task_id : String
  pub result : String
  pub error_message : String
  pub retry_count : ℕ
  pub max_retries : ℕ
  pub az : String
  pub created_at : ℕ
  pub queued_at : Option ℕ
  pub started_at : Option ℕ
  pub completed_at : Option ℕ
  pub updated_at : ℕ

pub record ResourceProgress : Type 0 where
  pub total : ℕ
  pub completed : ℕ
  pub failed : ℕ
  pub pending : ℕ

pub record VpcRequest : Type 0 where
  pub vpc_id : String
  pub vpc_name : String
  pub region : String
  pub vrf_name : String
  pub vlan_id : ℕ
  pub firewall_zone : String

pub record SubnetRequest : Type 0 where
  pub subnet_name : String
  pub vpc_name : String
  pub region : String
  pub az : String
  pub cidr : String

pub record VpcRef : Type 0 where
  pub vpc_name : String
  pub region : String

pub record PccnRequest : Type 0 where
  pub pccn_id : String
  pub pccn_name : String
  pub vpc1 : VpcRef
  pub vpc2 : VpcRef

-- `AZFirewallPolicyRequest`.
pub record PolicyRequest : Type 0 where
  pub policy_name : String
  pub source_zone : String
  pub dest_zone : String
  pub source_ip : String
  pub dest_ip : String
  pub source_port : String
  pub dest_port : String
  pub protocol : String
  pub action : String
  pub description : String
  pub region : String
  pub az : String

-- The response of a create call: `VPCResponse`, `SubnetResponse` and `PCCNResponse` of the AZ
-- layer, with the identifier of the resource and that of its workflow.
pub record CreateResponse : Type 0 where
  pub success : Bool
  pub message : String
  pub id : String
  pub workflow_id : String

-- A task that `HandleReply` takes for settled.
abbrev pub is_settled : TaskStatus → Bool
is_settled TaskStatus.completed = true
is_settled TaskStatus.failed = true
is_settled _ = false

abbrev pub is_completed : TaskStatus → Bool
is_completed TaskStatus.completed = true
is_completed _ = false

abbrev pub is_failed : TaskStatus → Bool
is_failed TaskStatus.failed = true
is_failed _ = false

abbrev pub is_pending : TaskStatus → Bool
is_pending TaskStatus.pending = true
is_pending _ = false

abbrev pub is_running : ResourceStatus → Bool
is_running ResourceStatus.running = true
is_running _ = false

abbrev pub is_deleted : ResourceStatus → Bool
is_deleted ResourceStatus.deleted = true
is_deleted _ = false
