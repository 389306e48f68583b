-- ===== src/Worker/Sent.antt =====
-- `publishReply` of tasks/handlers.go on a message whose metadata the manager can read.
use vpc_workflow_demo.Decimal.{ℤ, atoi}
use vpc_workflow_demo.Prelude.{
  ◌≡◌, inl, inr, false, Bool-cases, Option, none, some, String, ◌=?◌, ◌||◌, arith,
}
use vpc_workflow_demo.Models.{Params}
use vpc_workflow_demo.World.{
  Metadata, Message, ReplyStatus, Env, World, IsFaultless, ok, tick, or_wrap, wrap_result, db_exec,
  exec_unless, pure,
}
use vpc_workflow_demo.Workflow.Manager.{
  StepContext, metadata_context, read_steps, lookup, enqueue, broker_publish,
  metadata_key_resource_id, metadata_key_resource_type, metadata_key_step_index,
  metadata_key_total_steps,
}
use vpc_workflow_demo.Worker.Reply.{
  Context, metadata_int, parsed_int, build_reply_payload, payload_with, payload_of, reply_message,
  publish_built, publish_to, publish_reply,
}
use Prim.Native.String.compare

atoi_not_empty : (s : String) (n : ℤ) → atoi s ≡ some n → (s =? "") ≡ false
unfolding atoi
atoi_not_empty String.[] n h = absurd (ground arith)
atoi_not_empty (String.◌∷◌ c s) n h = rw (compare.cons-nil c s)

metadata_int-atoi :
    (m : Metadata) (k : String) (n : ℤ) → atoi (lookup k m) ≡ some n → metadata_int m k ≡ ok n
unfolding metadata_int parsed_int
metadata_int-atoi m k n h = rw (atoi_not_empty (lookup k m) n h, h)

-- What the manager reads from the metadata, the worker reads too.
pub record Reads (m : Metadata) (c : StepContext) : Type 0 where
  pub id : lookup metadata_key_resource_id m ≡ c.resource_id
  pub kind : lookup metadata_key_resource_type m ≡ c.resource_type
  pub present :
      ((lookup metadata_key_resource_id m =? "") || (lookup metadata_key_resource_type m =? ""))
      ≡ false
  pub index : metadata_int m metadata_key_step_index ≡ ok c.step_index
  pub total : metadata_int m metadata_key_total_steps ≡ ok c.total_steps

read_steps-ok :
    (rt rid : String) (i n : Option ℤ) (c : StepContext)
    → read_steps rt rid i n ≡ ok c
    → (rid ≡ c.resource_id)
      × (rt ≡ c.resource_type)
      × (i ≡ some c.step_index)
      × (n ≡ some c.total_steps)
unfolding read_steps
read_steps-ok rt rid none n c h = absurd (ground arith)
read_steps-ok rt rid (some i) none c h = absurd (ground arith)
read_steps-ok rt rid (some i) (some n) c h =
    (ground arith, ground arith, ground arith, ground arith)

pub metadata_context-Reads :
    (m : Metadata) (c : StepContext) → metadata_context m ≡ ok c → Reads m c
unfolding metadata_context
metadata_context-Reads m c h =
    elim (Bool-cases
      ((lookup metadata_key_resource_id m =? "") || (lookup metadata_key_resource_type m =? ""))) [
        | inl t ↦ absurd (ground (arith, rw t at h))
        | inr f ↦
            let r =
              read_steps-ok (lookup metadata_key_resource_type m)
                (lookup metadata_key_resource_id m) (atoi (lookup metadata_key_step_index m))
                (atoi (lookup metadata_key_total_steps m)) c (rw f at h) in
            record {
              id = r.0;
              kind = r.1;
              present = f;
              index = metadata_int-atoi m metadata_key_step_index c.step_index r.2;
              total = metadata_int-atoi m metadata_key_total_steps c.total_steps r.3;
            }
      ]

-- A reply to a message that says where, published without a fault.
pub publish_reply-sent :
    (c : Context) (msg : Message) (status : ReplyStatus) (result : Option Params) (message : String)
    (queue : String) (s : StepContext) (e : Env) (w : World)
    → IsFaultless e
    → msg.reply_queue ≡ some queue
    → (queue =? "") ≡ false
    → metadata_context msg.metadata ≡ ok s
    → publish_reply c msg status result message e w ≡ (
      ok tt,
      tick (
          enqueue
            (reply_message msg queue
              (payload_of c msg status result message s.step_index s.total_steps))
            w),
    )
unfolding publish_reply publish_to publish_built build_reply_payload payload_with or_wrap
    wrap_result broker_publish db_exec exec_unless pure
publish_reply-sent c msg status result message queue s e w calm to named context =
    let r = metadata_context-Reads msg.metadata s context in
    rw (to, named, r.index, r.total, r.present, calm.no_fault)
