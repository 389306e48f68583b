-- ===== src/Worker/Answer.antt =====
-- What a handler of tasks/ publishes when no call fails, and the message is one that the manager can
-- read.
use vpc_workflow_demo.Models.{Params}
use vpc_workflow_demo.Prelude.{
  String, ◌≡◌, some, ◌=?◌, false, none, inl, ◌∙◌, arith, sym, inr, ap, refl,
}
use vpc_workflow_demo.World.{
  Err, Env, Message, err, IsFaultless, ReplyPayload, World, tick, ok, ReplyStatus, raise,
  error_text, Result,
}
use vpc_workflow_demo.Workflow.Manager.{StepContext, metadata_context, enqueue}
use vpc_workflow_demo.Worker.Reply.{
  Context, reply_message, publish_success_reply, publish_failure_reply, payload_of, with_retries,
  retry_context,
}
use vpc_workflow_demo.Worker.Table.{Handler, handler_for}
use vpc_workflow_demo.Worker.Sent.{publish_reply-sent}
use vpc_workflow_demo.Worker.Outcome.{handler-IsHandler}

err_injective : (x y : Err) (r : Result (Unit {0})) → r ≡ err x → r ≡ err y → x ≡ y
err_injective x y r h k = cc

-- The world after a worker's reply.
abbrev pub replied : Message → String → ReplyPayload → World → World
replied msg queue r w = tick (enqueue (reply_message msg queue r) w)

module _ (e : Env) (calm : IsFaultless e) (c : Context) (device task_type : String) (h : Handler)
    (msg : Message) (queue : String) (s : StepContext)
    (found : handler_for device task_type ≡ some h) (asked : msg.reply_queue ≡ some queue)
    (named : (queue =? "") ≡ false) (context : metadata_context msg.metadata ≡ ok s)
    (w : World) where
  sent_success :
      (ps : Params)
      → publish_success_reply c msg ps e w ≡ (
        ok tt,
        replied msg queue
            (payload_of c msg ReplyStatus.success (some ps) "" s.step_index s.total_steps)
            w,
      )
  unfolding publish_success_reply
  sent_success ps =
      publish_reply-sent c msg ReplyStatus.success (some ps) "" queue s e w calm asked named context

  sent_failure :
      (x : Err)
      → publish_failure_reply c msg x e w ≡ (
        err x,
        replied msg queue
            (payload_of c msg ReplyStatus.failed none (error_text x) s.step_index s.total_steps)
            w,
      )
  unfolding publish_failure_reply raise
  sent_failure x = rw (
      publish_reply-sent c msg ReplyStatus.failed none (error_text x) queue s e w calm asked named
        context)

  -- A handler that answers no error has published a success.
  pub handler_success :
      (h c msg e w).0 ≡ ok tt
      → (r : ReplyPayload) × (r.status ≡ ReplyStatus.success)
        × (h c msg e w ≡ (ok tt, replied msg queue r w))
  unfolding payload_of with_retries
  handler_success fine = elim ((handler-IsHandler c msg device task_type h found).ends e w) [
    | inl p ↦ (_, refl, p.1 ∙ sent_success p.0)
    | inr p ↦ absurd (ground (arith, sym fine ∙ ap (λ r. r.0) (p.1 ∙ sent_failure p.0)))
  ]

  -- A handler that answers an error has published it as a failure, with the retries made so far.
  pub handler_failure :
      (x : Err)
      → (h c msg e w).0 ≡ err x
      → (r : ReplyPayload) × (r.status ≡ ReplyStatus.failed)
        × (r.error ≡ error_text x)
        × (r.final_failure ≡ (retry_context c).final_failure)
        × (h c msg e w ≡ (err x, replied msg queue r w))
  unfolding payload_of with_retries
  handler_failure x broken = elim ((handler-IsHandler c msg device task_type h found).ends e w) [
    | inl p ↦ absurd (ground (arith, sym broken ∙ ap (λ r. r.0) (p.1 ∙ sent_success p.0)))
    | inr p ↦
        let all = p.1 ∙ sent_failure p.0 in
        let same : p.0 ≡ x = err_injective _ _ _ (ap (λ r. r.0) all) broken in
        rw (← same) (_, refl, refl, refl, all)
  ]
