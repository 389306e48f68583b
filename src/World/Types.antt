-- ===== src/World/Types.antt =====
-- The values of internal/orchestration/types.go, of the broker and of the environment.
use vpc_workflow_demo.Prelude.{ℕ, ◌≡◌, String, ◌+++◌, Bool, Option, none, List}
use vpc_workflow_demo.Decimal.{ℤ}
use vpc_workflow_demo.Models.{Kind, vpc, subnet, pccn, firewall_policy, Attrs, Row, Task, Params}

-- An error value; `wrap` is `fmt.Errorf("...: %w", err)`, and so is it with `%v`. A
-- panic, which `gin.Recovery` of the handlers answers, is an error that no method passes over.
pub data Err : Type 0 where
  no_rows : Err
  external : String → Err
  fail : String → Err
  wrap : String → Err → Err
  panic : Err

-- `err.Error()`.
unfoldable pub error_text : Err → String
error_text no_rows = "sql: no rows in result set"
error_text (external s) = s
error_text (fail s) = s
error_text panic = "panic"
error_text (wrap s e) = s +++ (": " +++ error_text e)

pub data Result {ℓ} (A : Type ℓ) : Type ℓ where
  ok : A → Result A
  err : Err → Result A

pub data ReplyStatus : Type 0 where
  success failed : ReplyStatus
  other : String → ReplyStatus

pub record ReplyPayload : Type 0 where
  pub task_type : String
  pub resource_id : String
  pub resource_type : String
  pub step_index : ℤ
  pub total_steps : ℤ
  pub retry_count : ℕ
  pub max_retries : ℕ
  pub final_failure : Bool
  pub status : ReplyStatus
  pub result : String
  pub error : String

-- The bytes of a message: a JSON object of parameters, a reply, or no JSON at all.
pub data Payload : Type 0 where
  params : Params → Payload
  reply : ReplyPayload → Payload
  garbage : String → Payload

-- A Go map of texts; a key that is not there reads as the empty text.
abbrev pub Metadata : Type 0
Metadata = List (String × String)

-- `taskqueue.Task`, as it is handed to the broker.
pub record Message : Type 0 where
  pub task_type : String
  pub payload : Payload
  pub queue : String
  pub reply_queue : Option String
  pub metadata : Metadata

-- `taskqueue.TaskState`.
pub data TaskState : Type 0 where
  pending scheduled active retry completed failed : TaskState
  other : String → TaskState

pub record TaskDetail : Type 0 where
  pub state : TaskState
  pub retried : ℕ
  pub max_retry : ℕ
  pub last_error : String

-- The answer to an HTTP GET: the status code, and the `count` of a body that decodes.
pub record HttpReply : Type 0 where
  pub status_code : ℕ
  pub count : Option ℕ

-- Everything that the repository does not implement. The first argument of each field is the
-- number of calls made before.
pub record Env : Type 0 where
  pub uuid : ℕ → String
  pub clock : ℕ → ℕ
  pub fault : ℕ → Option String
  pub broker_id : ℕ → String
  pub task_info : ℕ → String → String → Result TaskDetail
  pub run_task : ℕ → String → String → Option String
  pub http_get : ℕ → String → Result HttpReply
  pub getenv : String → String
  pub is_task_reader : Bool
  pub is_task_controller : Bool

-- No call to the outside fails.
pub record IsFaultless (e : Env) : Type 0 where
  pub no_fault : (n : ℕ) → e.fault n ≡ none

pub record Rows : Type 0 where
  pub vpcs : List (Row (Attrs vpc))
  pub subnets : List (Row (Attrs subnet))
  pub pccns : List (Row (Attrs pccn))
  pub policies : List (Row (Attrs firewall_policy))

abbrev pub rows_of : (k : Kind) → Rows → List (Row (Attrs k))
rows_of vpc r = r.vpcs
rows_of subnet r = r.subnets
rows_of pccn r = r.pccns
rows_of firewall_policy r = r.policies

abbrev pub with_rows : (k : Kind) → List (Row (Attrs k)) → Rows → Rows
with_rows vpc l r = record r { vpcs = l }
with_rows subnet l r = record r { subnets = l }
with_rows pccn l r = record r { pccns = l }
with_rows firewall_policy l r = record r { policies = l }

pub record World : Type 0 where
  pub calls : ℕ
  pub rows : Rows
  pub tasks : List Task
  pub published : List Message
