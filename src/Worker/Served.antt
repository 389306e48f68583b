-- ===== src/Worker/Served.antt =====
-- The steps of the workflows of internal/az/orchestrator/orchestrator.go, and the handlers that
-- cmd/worker/main.go registers for them.
use vpc_workflow_demo.Decimal.{max_int}
use vpc_workflow_demo.Prelude.{
  ◌≡◌, leb, some, String, true, All, ◌=?◌, false, ap, refl, List, ◌∷◌, ◌∙◌,
}
use vpc_workflow_demo.Models.{VpcRequest, Params, SubnetRequest, PccnRequest, Value}
use vpc_workflow_demo.World.{
  Env, IsFaultless, now, Message, Result, ok, World, Exec, params, ReplyStatus,
}
use vpc_workflow_demo.Workflow.Manager.{WorkflowStep, StepContext, metadata_context}
use vpc_workflow_demo.Az.Orchestrator.{AzOrchestrator}
use vpc_workflow_demo.Az.Create.{
  vpc_workflow, subnet_workflow, pccn_workflow, build_vpc_task_params, build_subnet_task_params,
  build_pccn_task_params,
}
use vpc_workflow_demo.Worker.Reply.{Context, publish_success_reply}
use vpc_workflow_demo.Worker.Params.{
  vpc_params, subnet_params, pccn_params, with_params, run_decoded, decode, succeed, text_at,
  number_at, texts_at, value_at, as_text, as_number, as_texts,
}
use vpc_workflow_demo.Worker.Vpc.{
  create_vrf, create_vlan, create_zone, create_subnet, configure_routing, create_vrf_on_switch,
  create_vlan_subinterface, create_firewall_zone, create_subnet_on_switch, configure_subnet_routing,
}
use vpc_workflow_demo.Worker.Pccn.{
  create_connection, configure_routes, create_pccn_connection, configure_pccn_routing,
}
use vpc_workflow_demo.Worker.Table.{Handler, handler_for, registered, find_handler}
use vpc_workflow_demo.Worker.Sent.{publish_reply-sent}

-- What a VPC's request says is what its worker reads, if the VLAN fits an int.
vpc_params-build_vpc_task_params :
    (req : VpcRequest)
    → leb req.vlan_id max_int ≡ true
    → vpc_params (build_vpc_task_params req)
      ≡ ok (record {
        vpc_name = req.vpc_name;
        vrf_name = req.vrf_name;
        vlan_id = req.vlan_id;
        firewall_zone = req.firewall_zone;
        region = req.region;
      })
unfolding vpc_params build_vpc_task_params text_at number_at value_at as_text as_number
vpc_params-build_vpc_task_params req fits = rw fits

-- The worker of the step's device has a handler that answers no error on the payload of the step, if
-- the message names a reply queue, and its metadata can be read.
pub record Served (c : Context) (e : Env) (s : WorkflowStep) : Type 0 where
  pub handler : Handler
  pub found : handler_for s.device_type s.task_type ≡ some handler
  pub fine :
      (msg : Message) (queue : String) (step : StepContext) (w : World)
      → msg.payload ≡ params s.payload
      → msg.reply_queue ≡ some queue
      → (queue =? "") ≡ false
      → metadata_context msg.metadata ≡ ok step
      → (handler c msg e w).0 ≡ ok tt

module _ (c : Context) (e : Env) (calm : IsFaultless e) where
  succeed-ok :
      (ps : Params) (msg : Message) (queue : String) (step : StepContext) (w : World)
      → msg.reply_queue ≡ some queue
      → (queue =? "") ≡ false
      → metadata_context msg.metadata ≡ ok step
      → (succeed c msg ps e w).0 ≡ ok tt
  unfolding succeed publish_success_reply now
  succeed-ok ps msg queue step w asked named known =
      ap (λ r. r.0)
        (publish_reply-sent c msg ReplyStatus.success
          (some (("timestamp", Value.number (e.clock w.calls)) ∷ ps)) "" queue step e w calm asked
          named known)

  -- A handler that reads the payload, and then succeeds.
  serves :
      {A : Type 0} (s : WorkflowStep) (read : Params → Result A)
      (run : Context → Message → A → Exec (Unit {0})) (a : A)
      → handler_for s.device_type s.task_type
        ≡ some (λ c' msg. with_params read c' (run c' msg) msg)
      → read s.payload ≡ ok a
      → ((msg : Message) → (result : Params) × (run c msg a ≡ succeed c msg result))
      → Served c e s
  unfolding with_params run_decoded decode
  serves s read run a found good ends = record {
    handler = λ c' msg. with_params read c' (run c' msg) msg;
    found = found;
    fine = λ msg queue step w is_params asked named known.
        let decoded : decode read msg.payload ≡ ok a = ap (decode read) is_params ∙ good in
        ap (λ r. (run_decoded read c (run c msg) msg r e w).0) decoded
        ∙ ap (λ m. (m e w).0) (ends msg).1
        ∙ succeed-ok (ends msg).0 msg queue step w asked named known;
  }

  -- If no call fails, every step of a VPC's workflow is served, if the VLAN fits an int.
  pub vpc_workflow-Served :
      (o : AzOrchestrator) (req : VpcRequest) (id : String)
      → leb req.vlan_id max_int ≡ true
      → All (Served c e) (vpc_workflow o req id).steps
  unfolding vpc_workflow handler_for registered find_handler create_vrf_on_switch create_vrf
      create_vlan_subinterface create_vlan create_firewall_zone create_zone
  vpc_workflow-Served o req id fits =
      let reads = vpc_params-build_vpc_task_params req fits in
      (
        serves _ vpc_params create_vrf _ refl reads (λ msg. (_, refl)),
        (
          serves _ vpc_params create_vlan _ refl reads (λ msg. (_, refl)),
          (serves _ vpc_params create_zone _ refl reads (λ msg. (_, refl)), tt),
        ),
      )

  -- So is every step of a subnet's, if its range is not the one that the switch refuses.
  pub subnet_workflow-Served :
      (o : AzOrchestrator) (req : SubnetRequest) (id : String)
      → (req.cidr =? "10.0.99.0/24") ≡ false
      → All (Served c e) (subnet_workflow o req id).steps
  unfolding subnet_workflow build_subnet_task_params subnet_params text_at value_at as_text
      handler_for registered find_handler create_subnet_on_switch create_subnet
      configure_subnet_routing configure_routing
  subnet_workflow-Served o req id free = (
    serves _ subnet_params create_subnet _ refl refl (λ msg. rw free (_, refl)),
    (serves _ subnet_params configure_routing _ refl refl (λ msg. (_, refl)), tt),
  )

  -- So is every step of a connection's.
  pub pccn_workflow-Served :
      (o : AzOrchestrator) (req : PccnRequest) (id : String) (cidrs : List String)
      → All (Served c e) (pccn_workflow o req id cidrs).steps
  unfolding pccn_workflow build_pccn_task_params pccn_params text_at texts_at value_at as_text
      as_texts handler_for registered find_handler create_pccn_connection create_connection
      configure_pccn_routing configure_routes
  pccn_workflow-Served o req id cidrs = (
    serves _ pccn_params create_connection _ refl refl (λ msg. (_, refl)),
    (serves _ pccn_params configure_routes _ refl refl (λ msg. (_, refl)), tt),
  )
