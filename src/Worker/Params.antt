-- ===== src/Worker/Params.antt =====
-- The parameters of a task, as tasks/handlers.go and tasks/pccn_handlers.go decode them. A key that is
-- not there leaves the zero value, and a value of another type is an error; its text, which is the
-- standard library's, is left out. A list that is empty or `nil` is `[]`.
use vpc_workflow_demo.Decimal.{max_int}
use vpc_workflow_demo.Prelude.{
  ℕ, String, Option, none, some, List, [], ◌∷◌, if◌then◌else◌, ◌=?◌, leb,
}
use vpc_workflow_demo.Models.{Params, Value}
use vpc_workflow_demo.World.{
  Result, ok, err, external, wrap, Message, Payload, params, reply, garbage, Exec, now, ◌>>=◌,
}
use vpc_workflow_demo.Worker.Reply.{Context, publish_success_reply, publish_failure_reply}

unfoldable pub value_at : String → Params → Option Value
value_at k [] = none
value_at k ((j, v) ∷ ps) = if j =? k then some v else value_at k ps

abbrev mismatch {ℓ} : {A : Type ℓ} → Result A
mismatch = err (external "json: cannot unmarshal")

unfoldable pub as_text : Option Value → Result String
as_text none = ok ""
as_text (some (Value.text s)) = ok s
as_text (some _) = mismatch

unfoldable pub as_number : Option Value → Result ℕ
as_number none = ok 0
as_number (some (Value.number n)) = if leb n max_int then ok n else mismatch
as_number (some _) = mismatch

unfoldable pub as_texts : Option Value → Result (List String)
as_texts none = ok []
as_texts (some (Value.texts l)) = ok l
as_texts (some _) = mismatch

unfoldable pub text_at : String → Params → Result String
unfolding value_at as_text
text_at k ps = as_text (value_at k ps)

unfoldable pub number_at : String → Params → Result ℕ
unfolding value_at as_number
number_at k ps = as_number (value_at k ps)

unfoldable pub texts_at : String → Params → Result (List String)
unfolding value_at as_texts
texts_at k ps = as_texts (value_at k ps)

module _ {ℓ κ} {A : Type ℓ} {B : Type κ} where
  -- One field after the other; the first mismatch is the error.
  infixl 5 ◌then◌
  abbrev pub ◌then◌ : Result A → (A → Result B) → Result B
  ok a then f = f a
  err x then f = err x

pub record VpcParams : Type 0 where
  pub vpc_name : String
  pub vrf_name : String
  pub vlan_id : ℕ
  pub firewall_zone : String
  pub region : String

unfoldable pub vpc_params : Params → Result VpcParams
unfolding text_at number_at
vpc_params ps = text_at "vpc_name" ps then λ a. text_at "vrf_name" ps then λ b.
    number_at "vlan_id" ps then λ c. text_at "firewall_zone" ps then λ d.
    text_at "region" ps then λ f.
    ok (record { vpc_name = a; vrf_name = b; vlan_id = c; firewall_zone = d; region = f })

pub record SubnetParams : Type 0 where
  pub subnet_name : String
  pub vpc_name : String
  pub cidr : String

unfoldable pub subnet_params : Params → Result SubnetParams
unfolding text_at
subnet_params ps = text_at "subnet_name" ps then λ a. text_at "vpc_name" ps then λ b.
    text_at "cidr" ps then λ c. ok (record { subnet_name = a; vpc_name = b; cidr = c })

pub record FirewallPolicyParams : Type 0 where
  pub policy_name : String
  pub source_zone : String
  pub dest_zone : String
  pub source_ip : String
  pub dest_ip : String
  pub dest_port : String
  pub protocol : String
  pub action : String

unfoldable pub firewall_policy_params : Params → Result FirewallPolicyParams
unfolding text_at
firewall_policy_params ps = text_at "policy_name" ps then λ a. text_at "source_zone" ps then λ b.
    text_at "dest_zone" ps then λ c. text_at "source_ip" ps then λ d. text_at "dest_ip" ps then λ f.
    text_at "dest_port" ps then λ g. text_at "protocol" ps then λ h. text_at "action" ps then λ k.
    ok (record {
      policy_name = a;
      source_zone = b;
      dest_zone = c;
      source_ip = d;
      dest_ip = f;
      dest_port = g;
      protocol = h;
      action = k;
    })

pub record LbParams : Type 0 where
  pub pool_name : String
  pub listener_name : String

unfoldable pub lb_params : Params → Result LbParams
unfolding text_at
lb_params ps = text_at "pool_name" ps then λ a.
    text_at "listener_name" ps then λ b. ok (record { pool_name = a; listener_name = b })

pub record PccnParams : Type 0 where
  pub pccn_id : String
  pub pccn_name : String
  pub vpc_name : String
  pub vpc_region : String
  pub peer_vpc_name : String
  pub peer_vpc_region : String
  pub az : String
  pub subnets : List String

unfoldable pub pccn_params : Params → Result PccnParams
unfolding text_at texts_at
pccn_params ps = text_at "pccn_id" ps then λ a. text_at "pccn_name" ps then λ b.
    text_at "vpc_name" ps then λ c. text_at "vpc_region" ps then λ d.
    text_at "peer_vpc_name" ps then λ f. text_at "peer_vpc_region" ps then λ g.
    text_at "az" ps then λ h. texts_at "subnets" ps then λ k. ok (record {
      pccn_id = a;
      pccn_name = b;
      vpc_name = c;
      vpc_region = d;
      peer_vpc_name = f;
      peer_vpc_region = g;
      az = h;
      subnets = k;
    })

module _ {A : Type 0} (read : Params → Result A) where
  -- `json.Unmarshal(task.Payload, &params)`: a reply has none of the keys that are read.
  unfoldable pub decode : Payload → Result A
  decode (params ps) = read ps
  decode (reply _) = read []
  decode (garbage s) = err (external s)

  unfoldable pub run_decoded :
      Context → (A → Exec (Unit {0})) → Message → Result A → Exec (Unit {0})
  run_decoded c run msg (ok p) = run p
  run_decoded c run msg (err x) = publish_failure_reply c msg (wrap "解析任务参数失败" x)

  -- What all handlers begin with.
  unfoldable pub with_params : Context → (A → Exec (Unit {0})) → Message → Exec (Unit {0})
  unfolding decode run_decoded
  with_params c run msg = run_decoded c run msg (decode msg.payload)

-- What a handler that succeeds ends with: its result, and the time.
unfoldable pub succeed : Context → Message → Params → Exec (Unit {0})
succeed c msg result = do
  t ← now
  publish_success_reply c msg (("timestamp", Value.number t) ∷ result)
