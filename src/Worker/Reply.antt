-- ===== src/Worker/Reply.antt =====
-- The replies of tasks/handlers.go: `publishReply` and what it calls. The broker and the task that a
-- handler is given are there, so that the tests for `nil` of `publishReply` are left out.
use vpc_workflow_demo.Decimal.{ℤ, atoi}
use vpc_workflow_demo.Prelude.{
  ℕ, String, Option, none, some, Bool, true, false, if◌then◌else◌, ◌=?◌, ◌||◌, ◌+++◌, leb,
}
use vpc_workflow_demo.Models.{Params}
use vpc_workflow_demo.World.{
  Err, Result, ok, err, fail, error_text, Metadata, Message, ReplyPayload, ReplyStatus, reply, Exec,
  pure, raise, or_wrap, ◌>>◌,
}
use vpc_workflow_demo.Workflow.Manager.{
  lookup, broker_publish, reply_task_type, metadata_key_resource_id, metadata_key_resource_type,
  metadata_key_step_index, metadata_key_total_steps,
}

-- What a handler is called with beside its task: the retries that the task queue library keeps in
-- the context, if they are there, and `json.Marshal` on a map.
pub record Context : Type 0 where
  pub retry_count : Option ℕ
  pub max_retry : Option ℕ
  pub marshal : Params → String

pub record Retries : Type 0 where
  pub retry_count : ℕ
  pub max_retries : ℕ
  pub final_failure : Bool

unfoldable pub retries_of : Option ℕ → Option ℕ → Retries
retries_of (some n) (some k) = record { retry_count = n; max_retries = k; final_failure = leb k n }
retries_of _ _ = record { retry_count = 0; max_retries = 0; final_failure = true }

unfoldable pub retry_context : Context → Retries
unfolding retries_of
retry_context c = retries_of c.retry_count c.max_retry

-- The error of `strconv.Atoi` itself, which the text ends with, is left out.
unfoldable pub parsed_int : String → Option ℤ → Result ℤ
parsed_int key none = err (fail ("task metadata " +++ (key +++ " 非法")))
parsed_int key (some n) = ok n

unfoldable pub metadata_int : Metadata → String → Result ℤ
unfolding parsed_int lookup
metadata_int m key =
    if lookup key m =? ""
    then err (fail ("task metadata缺少" +++ key))
    else parsed_int key (atoi (lookup key m))

unfoldable pub with_retries : Context → ReplyStatus → ReplyPayload → ReplyPayload
unfolding retry_context
with_retries c ReplyStatus.failed r = record r {
  retry_count = (retry_context c).retry_count;
  max_retries = (retry_context c).max_retries;
  final_failure = (retry_context c).final_failure;
}
with_retries c _ r = r

abbrev pub result_text : Context → Option Params → String
result_text c none = ""
result_text c (some ps) = c.marshal ps

unfoldable pub payload_of :
    Context → Message → ReplyStatus → Option Params → String → ℤ → ℤ → ReplyPayload
unfolding with_retries lookup
payload_of c msg status result message index total = with_retries c status (record {
  task_type = msg.task_type;
  resource_id = lookup metadata_key_resource_id msg.metadata;
  resource_type = lookup metadata_key_resource_type msg.metadata;
  step_index = index;
  total_steps = total;
  retry_count = 0;
  max_retries = 0;
  final_failure = false;
  status = status;
  result = result_text c result;
  error = message;
})

unfoldable pub payload_with :
    Context
    → Message
    → ReplyStatus
    → Option Params
    → String
    → Result ℤ
    → Result ℤ
    → Result ReplyPayload
unfolding payload_of lookup
payload_with c msg status result message (err x) total = err x
payload_with c msg status result message (ok i) (err x) = err x
payload_with c msg status result message (ok i) (ok n) =
    if (lookup metadata_key_resource_id msg.metadata =? "")
      || (lookup metadata_key_resource_type msg.metadata =? "")
    then err (fail "task metadata缺少resource上下文")
    else ok (payload_of c msg status result message i n)

unfoldable pub build_reply_payload :
    Context → Message → ReplyStatus → Option Params → String → Result ReplyPayload
unfolding payload_with metadata_int
build_reply_payload c msg status result message =
    payload_with c msg status result message (metadata_int msg.metadata metadata_key_step_index)
      (metadata_int msg.metadata metadata_key_total_steps)

-- The message of a reply, with the metadata of the task.
unfoldable pub reply_message : Message → String → ReplyPayload → Message
reply_message msg queue r = record {
  task_type = reply_task_type;
  payload = reply r;
  queue = queue;
  reply_queue = none;
  metadata = msg.metadata;
}

unfoldable pub publish_built : Message → String → Result ReplyPayload → Exec (Unit {0})
unfolding reply_message broker_publish
publish_built msg queue (err x) = raise x
publish_built msg queue (ok r) = do
  or_wrap "发布reply任务失败" (broker_publish (reply_message msg queue r))
  pure tt

unfoldable pub publish_to :
    Context → Message → ReplyStatus → Option Params → String → Option String → Exec (Unit {0})
unfolding publish_built build_reply_payload
publish_to c msg status result message none = raise (fail "reply queue is required")
publish_to c msg status result message (some queue) =
    if queue =? ""
    then raise (fail "reply queue is required")
    else publish_built msg queue (build_reply_payload c msg status result message)

unfoldable pub publish_reply :
    Context → Message → ReplyStatus → Option Params → String → Exec (Unit {0})
unfolding publish_to
publish_reply c msg status result message = publish_to c msg status result message msg.reply_queue

unfoldable pub publish_success_reply : Context → Message → Params → Exec (Unit {0})
unfolding publish_reply
publish_success_reply c msg result = publish_reply c msg ReplyStatus.success (some result) ""

-- The failure is returned too, so that the task queue library retries the task.
unfoldable pub publish_failure_reply : Context → Message → Err → Exec (Unit {0})
unfolding publish_reply
publish_failure_reply c msg cause = do
  publish_reply c msg ReplyStatus.failed none (error_text cause)
  raise cause
