-- ===== src/Worker/Outcome.antt =====
-- What a handler of tasks/ can do, whichever calls fail.
use vpc_workflow_demo.Prelude.{
  ◌⊎◌, ◌≡◌, inl, inr, refl, true, false, Bool, Bool-cases, Option, none, some, String, ◌=?◌, List,
  [], ◌∷◌, if◌then◌else◌, All, arith, Option-cases,
}
use vpc_workflow_demo.Models.{Params}
use vpc_workflow_demo.World.{
  Err, Result, ok, err, Message, ReplyPayload, ReplyStatus, Env, World, tick, or_wrap, wrap_result,
  db_exec, exec_unless, pure, raise, Exec, error_text, now, continue,
}
use vpc_workflow_demo.Workflow.Manager.{enqueue, broker_publish}
use vpc_workflow_demo.Worker.Reply.{
  Context, build_reply_payload, reply_message, publish_built, publish_to, publish_reply,
  publish_success_reply, publish_failure_reply,
}
use vpc_workflow_demo.Worker.Params.{with_params, run_decoded, decode, succeed}
use vpc_workflow_demo.Queue.{device_type_switch, device_type_firewall, device_type_load_balancer}
use vpc_workflow_demo.Worker.Vpc.{
  create_vrf, create_vlan, create_zone, create_subnet, configure_routing, create_vrf_on_switch,
  create_vlan_subinterface, create_firewall_zone, create_subnet_on_switch, configure_subnet_routing,
}
use vpc_workflow_demo.Worker.Other.{
  create_pool, configure_listener, create_policy, create_lb_pool, configure_lb_listener,
  create_firewall_policy,
}
use vpc_workflow_demo.Worker.Pccn.{
  create_connection, configure_routes, create_pccn_connection, configure_pccn_routing,
}
use vpc_workflow_demo.Worker.Table.{Handler, handler_for, registered, find_handler}

some_injective {ℓ} : {A : Type ℓ} (a b : A) → some a ≡ some b → a ≡ b
some_injective a b h = cc

-- One reply was published, to the queue that the message names, with a payload built from it; and
-- nothing else happened.
pub record Published (c : Context) (msg : Message) (status : ReplyStatus) (result : Option Params)
    (message : String) (w w' : World) : Type 0 where
  pub queue : String
  pub payload : ReplyPayload
  pub asked : msg.reply_queue ≡ some queue
  pub built : build_reply_payload c msg status result message ≡ ok payload
  pub after : w' ≡ tick (enqueue (reply_message msg queue payload) w)

-- A handler reports a success that it has published, or an error that it has published, or an
-- error without any message.
pub data HandlerOutcome (c : Context) (msg : Message) (w : World)
    : Result (Unit {0}) × World → Type 0 where
  succeeded :
      (result : Params) (w' : World)
      → Published c msg ReplyStatus.success (some result) "" w w'
      → HandlerOutcome c msg w (ok tt, w')
  refused :
      (x : Err) (w' : World)
      → Published c msg ReplyStatus.failed none (error_text x) w w'
      → HandlerOutcome c msg w (err x, w')
  unsent : (x : Err) → HandlerOutcome c msg w (err x, w)
  lost : (x : Err) → HandlerOutcome c msg w (err x, tick w)

-- The same of one publication, before the handler makes its result of it.
data Publication (c : Context) (msg : Message) (status : ReplyStatus) (result : Option Params)
    (message : String) (w : World) : Result (Unit {0}) × World → Type 0 where
  sent :
      (w' : World)
      → Published c msg status result message w w'
      → Publication c msg status result message w (ok tt, w')
  unsent : (x : Err) → Publication c msg status result message w (err x, w)
  lost : (x : Err) → Publication c msg status result message w (err x, tick w)

module _ (c : Context) (msg : Message) (e : Env) (w : World) where
  publish_built-Publication :
      (status : ReplyStatus) (result : Option Params) (message queue : String)
      (r : Result ReplyPayload)
      → msg.reply_queue ≡ some queue
      → build_reply_payload c msg status result message ≡ r
      → Publication c msg status result message w (publish_built msg queue r e w)
  unfolding publish_built or_wrap wrap_result broker_publish db_exec exec_unless pure raise
  publish_built-Publication status result message queue (err x) to b = Publication.unsent x
  publish_built-Publication status result message queue (ok r) to b =
      elim (Option-cases (e.fault w.calls)) [
        | inl calm ↦ rw calm (
            Publication.sent _
              (record { queue = queue; payload = r; asked = to; built = b; after = refl }))
        | inr broken ↦ rw broken.1 (Publication.lost _)
      ]

  publish_to-Publication :
      (status : ReplyStatus) (result : Option Params) (message : String) (o : Option String)
      → msg.reply_queue ≡ o
      → Publication c msg status result message w (publish_to c msg status result message o e w)
  unfolding publish_to raise
  publish_to-Publication status result message none to = Publication.unsent _
  publish_to-Publication status result message (some queue) to = elim (Bool-cases (queue =? "")) [
    | inl t ↦ rw t (Publication.unsent _)
    | inr f ↦ rw f (
        publish_built-Publication status result message queue
          (build_reply_payload c msg status result message) to refl)
  ]

  publish_reply-Publication :
      (status : ReplyStatus) (result : Option Params) (message : String)
      → Publication c msg status result message w (publish_reply c msg status result message e w)
  unfolding publish_reply
  publish_reply-Publication status result message =
      publish_to-Publication status result message msg.reply_queue refl

  Publication-success :
      (result : Params) (r : Result (Unit {0}) × World)
      → Publication c msg ReplyStatus.success (some result) "" w r
      → HandlerOutcome c msg w r
  Publication-success result (_, _) (Publication.sent w' p) = HandlerOutcome.succeeded result w' p
  Publication-success result (_, _) (Publication.unsent x) = HandlerOutcome.unsent x
  Publication-success result (_, _) (Publication.lost x) = HandlerOutcome.lost x

  Publication-failure :
      (x : Err) (r : Result (Unit {0}) × World)
      → Publication c msg ReplyStatus.failed none (error_text x) w r
      → HandlerOutcome c msg w (continue r.0 (λ _. raise x) e r.1)
  unfolding raise
  Publication-failure x (_, _) (Publication.sent w' p) = HandlerOutcome.refused x w' p
  Publication-failure x (_, _) (Publication.unsent y) = HandlerOutcome.unsent y
  Publication-failure x (_, _) (Publication.lost y) = HandlerOutcome.lost y

module _ (c : Context) (msg : Message) where
  -- However a handler goes, it ends with the publication of one reply.
  pub record IsHandler (m : Exec (Unit {0})) : Type 0 where
    pub ends :
        (e : Env) (w : World)
        → ((result : Params) × (m e w ≡ publish_success_reply c msg result e w))
          ⊎ ((x : Err) × (m e w ≡ publish_failure_reply c msg x e w))

  succeed-IsHandler : (result : Params) → IsHandler (succeed c msg result)
  unfolding succeed now
  succeed-IsHandler result = record { ends = λ e w. inl (_, refl) }

  failure-IsHandler : (x : Err) → IsHandler (publish_failure_reply c msg x)
  failure-IsHandler x = record { ends = λ e w. inr (x, refl) }

  if-IsHandler :
      (b : Bool) (m n : Exec (Unit {0}))
      → IsHandler m
      → IsHandler n
      → IsHandler (if b then m else n)
  if-IsHandler true m n h k = h
  if-IsHandler false m n h k = k

  with_params-IsHandler :
      {A : Type 0} (read : Params → Result A) (run : A → Exec (Unit {0}))
      → ((a : A) → IsHandler (run a))
      → IsHandler (with_params read c run msg)
  unfolding with_params run_decoded
  with_params-IsHandler {A = A} read run h = decoded (decode read msg.payload)
    where
      decoded : (r : Result A) → IsHandler (run_decoded read c run msg r)
      decoded (ok a) = h a
      decoded (err x) = failure-IsHandler _

  IsHandler-HandlerOutcome :
      (m : Exec (Unit {0})) (e : Env) (w : World) → IsHandler m → HandlerOutcome c msg w (m e w)
  unfolding publish_success_reply publish_failure_reply
  IsHandler-HandlerOutcome m e w h = elim (h.ends e w) [
    | inl p ↦ rw p.1 (
        Publication-success c msg e w p.0 _
          (publish_reply-Publication c msg e w ReplyStatus.success (some p.0) ""))
    | inr p ↦ rw p.1 (
        Publication-failure c msg e w p.0 _
          (publish_reply-Publication c msg e w ReplyStatus.failed none (error_text p.0)))
  ]

  vpc_handlers :
      IsHandler (create_vrf_on_switch c msg)
      × IsHandler (create_vlan_subinterface c msg)
      × IsHandler (create_firewall_zone c msg)
      × IsHandler (create_subnet_on_switch c msg)
      × IsHandler (configure_subnet_routing c msg)
  unfolding create_vrf_on_switch create_vrf create_vlan_subinterface create_vlan
      create_firewall_zone create_zone create_subnet_on_switch create_subnet
      configure_subnet_routing configure_routing
  vpc_handlers = (
    with_params-IsHandler _ _ (λ p. succeed-IsHandler _),
    with_params-IsHandler _ _ (λ p. succeed-IsHandler _),
    with_params-IsHandler _ _ (λ p. succeed-IsHandler _),
    with_params-IsHandler _ _ (λ p.
        if-IsHandler (p.cidr =? "10.0.99.0/24") _ _ (failure-IsHandler _) (succeed-IsHandler _)),
    with_params-IsHandler _ _ (λ p. succeed-IsHandler _),
  )

  other_handlers :
      IsHandler (create_lb_pool c msg)
      × IsHandler (configure_lb_listener c msg)
      × IsHandler (create_firewall_policy c msg)
      × IsHandler (create_pccn_connection c msg)
      × IsHandler (configure_pccn_routing c msg)
  unfolding create_lb_pool create_pool configure_lb_listener configure_listener
      create_firewall_policy create_policy create_pccn_connection create_connection
      configure_pccn_routing configure_routes
  other_handlers = (
    with_params-IsHandler _ _ (λ p. succeed-IsHandler _),
    with_params-IsHandler _ _ (λ p. succeed-IsHandler _),
    with_params-IsHandler _ _ (λ p. succeed-IsHandler _),
    with_params-IsHandler _ _ (λ p. succeed-IsHandler _),
    with_params-IsHandler _ _ (λ p. succeed-IsHandler _),
  )

  abbrev Fit : String × Handler → Type 0
  Fit p = IsHandler (p.1 c msg)

  registered-All : (device : String) → All Fit (registered device)
  unfolding registered
  registered-All device =
      let a = vpc_handlers in
      let b = other_handlers in
      elim (Bool-cases (device =? device_type_switch)) [
        | inl t ↦ rw t (a.0, (a.1, (a.3, (a.4, (b.3, (b.4, tt))))))
        | inr n ↦ rw n (elim (Bool-cases (device =? device_type_firewall)) [
          | inl t ↦ rw t (a.2, (b.2, tt))
          | inr n ↦ rw n (elim (Bool-cases (device =? device_type_load_balancer)) [
            | inl t ↦ rw t (b.0, (b.1, tt))
            | inr n ↦ rw n tt
          ])
        ])
      ]

  found_fits :
      (task_type : String) (l : List (String × Handler)) (h : Handler)
      → All Fit l
      → find_handler task_type l ≡ some h
      → IsHandler (h c msg)
  unfolding find_handler
  found_fits task_type [] h all found = absurd (ground arith)
  found_fits task_type (p ∷ l) h all found = elim (Bool-cases (p.0 =? task_type)) [
    | inl t ↦ let same : p.1 ≡ h = some_injective _ _ (rw t at found) in rw (← same) all.0
    | inr n ↦ found_fits task_type l h all.1 (rw n at found)
  ]

  pub handler-IsHandler :
      (device task_type : String) (h : Handler)
      → handler_for device task_type ≡ some h
      → IsHandler (h c msg)
  unfolding handler_for
  handler-IsHandler device task_type h found =
      found_fits task_type (registered device) h (registered-All device) found

-- Whichever calls fail, a handler that a worker registers either answers no error and has published
-- one reply of a success; or answers an error and has published one reply of a failure with the text
-- of that error; or answers an error and has published nothing. A reply goes to the queue that the
-- message names, with its metadata, and no table is changed.
pub handler-HandlerOutcome :
    (device task_type : String) (h : Handler) (c : Context) (msg : Message) (e : Env) (w : World)
    → handler_for device task_type ≡ some h
    → HandlerOutcome c msg w (h c msg e w)
handler-HandlerOutcome device task_type h c msg e w found =
    IsHandler-HandlerOutcome c msg (h c msg) e w (handler-IsHandler c msg device task_type h found)
