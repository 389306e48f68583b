-- ===== src/Workflow/Manager.antt =====
-- internal/orchestration/workflow.go: the manager, its resource stores, the metadata of a message,
-- and the publication of a step.
use vpc_workflow_demo.Decimal.{ℤ, itoa, int_pred, pos, atoi}
use vpc_workflow_demo.Prelude.{
  String, ℕ, List, Option, ◌∷◌, none, [], if◌then◌else◌, ◌++◌, some, ◌=?◌, ◌||◌, ◌+++◌, length,
}
use vpc_workflow_demo.Models.{Task, Params}
use vpc_workflow_demo.World.{
  Metadata, Message, Exec, Result, World, db_exec, params, err, raise, fail, ◌>>=◌, pure, ok,
  or_wrap,
}
use vpc_workflow_demo.Dao.Tasks
use vpc_workflow_demo.Dao.Table.{ResourceStore}

pub record WorkflowStep : Type 0 where
  pub task_type : String
  pub task_name : String
  pub device_type : String
  pub priority : ℕ
  pub max_retries : ℕ
  pub payload : Params

pub record WorkflowDef : Type 0 where
  pub resource_type : String
  pub resource_id : String
  pub az : String
  pub steps : List WorkflowStep

pub record Manager : Type 0 where
  pub queue_resolver : String → ℕ → String
  pub reply_queue_name : String
  pub resource_stores : List (String × ResourceStore)

unfoldable pub new_manager : (String → ℕ → String) → String → Manager
new_manager resolver reply_queue = record {
  queue_resolver = resolver;
  reply_queue_name = reply_queue;
  resource_stores = [];
}

-- The newest registration of a type is the one that is read.
unfoldable pub register_resource_store : String → ResourceStore → Manager → Manager
register_resource_store rt s m = record m { resource_stores = (rt, s) ∷ m.resource_stores }

unfoldable pub find_store : String → List (String × ResourceStore) → Option ResourceStore
find_store rt [] = none
find_store rt ((k, s) ∷ l) = if k =? rt then some s else find_store rt l

unfoldable pub resource_store : Manager → String → Option ResourceStore
unfolding find_store
resource_store m rt = find_store rt m.resource_stores

abbrev pub metadata_key_resource_id : String
metadata_key_resource_id = "resource_id"

abbrev pub metadata_key_resource_type : String
metadata_key_resource_type = "resource_type"

abbrev pub metadata_key_step_index : String
metadata_key_step_index = "step_index"

abbrev pub metadata_key_total_steps : String
metadata_key_total_steps = "total_steps"

abbrev pub reply_task_type : String
reply_task_type = "workflow_step_reply"

-- A read of a Go map: a missing key gives the zero value.
unfoldable pub lookup : String → Metadata → String
lookup k [] = ""
lookup k ((j, v) ∷ m) = if j =? k then v else lookup k m

pub record StepContext : Type 0 where
  pub resource_type : String
  pub resource_id : String
  pub step_index : ℤ
  pub total_steps : ℤ

-- The error of `strconv.Atoi` itself, which the text ends with, is left out.
unfoldable pub read_steps : String → String → Option ℤ → Option ℤ → Result StepContext
read_steps rt rid none total = err (fail "reply metadata step_index非法")
read_steps rt rid (some i) none = err (fail "reply metadata total_steps非法")
read_steps rt rid (some i) (some n) =
    ok (record { resource_type = rt; resource_id = rid; step_index = i; total_steps = n })

unfoldable pub metadata_context : Metadata → Result StepContext
unfolding lookup read_steps
metadata_context m =
    let rid = lookup metadata_key_resource_id m in
    let rt = lookup metadata_key_resource_type m in
    if (rid =? "") || (rt =? "")
    then err (fail "reply metadata缺少resource上下文")
    else read_steps rt rid (atoi (lookup metadata_key_step_index m))
        (atoi (lookup metadata_key_total_steps m))

-- What the broker takes over: the message is in its queue, and has an identifier.
abbrev pub enqueue : Message → World → World
enqueue msg w = record w { published = w.published ++ msg ∷ [] }

-- `broker.Publish`
unfoldable pub broker_publish : Message → Exec String
broker_publish msg e w = (db_exec (λ _. enqueue msg) >>= λ _. pure (e.broker_id w.calls)) e w

unfoldable pub step_message : Manager → Task → ℤ → Message
step_message m t total = record {
  task_type = t.task_type;
  payload = params t.task_params;
  queue = m.queue_resolver t.device_type t.priority;
  reply_queue = some m.reply_queue_name;
  metadata =
      (metadata_key_resource_id, t.resource_id)
      ∷ (metadata_key_resource_type, t.resource_type)
      ∷ (metadata_key_step_index, itoa (int_pred (pos t.task_order)))
      ∷ (metadata_key_total_steps, itoa total)
      ∷ [];
}

unfoldable pub publish_task : Manager → Task → ℤ → Exec (Unit {0})
unfolding step_message broker_publish
publish_task m t total =
    if m.queue_resolver t.device_type t.priority =? ""
    then raise (
        fail (
          "queue resolver返回空队列: deviceType="
          +++ (t.device_type +++ (" priority=" +++ itoa (pos t.priority)))))
    else do broker_id ← broker_publish (step_message m t total); Tasks.update_queued t.id broker_id

unfoldable pub requeue_with : Manager → Task → List Task → Exec (Unit {0})
requeue_with m t [] = raise (fail ("资源 " +++ (t.resource_id +++ " 没有关联任务")))
requeue_with m t (x ∷ xs) = publish_task m t (pos (length (x ∷ xs)))

unfoldable pub requeue_task : Manager → Task → Exec (Unit {0})
unfolding requeue_with
requeue_task m t = do
  ts ← or_wrap "查询任务列表失败" (Tasks.get_by_resource_id t.resource_id)
  requeue_with m t ts
