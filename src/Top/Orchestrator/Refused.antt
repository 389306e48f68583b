-- ===== src/Top/Orchestrator/Refused.antt =====
-- A method of internal/top/orchestrator/orchestrator.go that answers without success has changed no table.
use vpc_workflow_demo.Prelude.{
  ◌≡◌, refl, String, Bool, true, false, none, inl, inr, ◌⊎◌, if◌then◌else◌,
}
use vpc_workflow_demo.Models.{VpcRequest, SubnetRequest, PccnRequest, CreateResponse, VpcRef}
use vpc_workflow_demo.World.{Result, ok, err, no_rows, external, fail, wrap, panic}
use vpc_workflow_demo.Top.World.{
  Act, Top, TopEnv, VpcRegistry, PccnRegistry, attempt, pure, ignore, continue, ◌>>=◌, new_uuid,
}
use vpc_workflow_demo.Top.Rules.{
  Keeps, IsStable, Keeps-pure, Keeps-raise, Keeps-or_wrap, Keeps-call, Keeps-attempt,
  Keeps-new_uuid, Keeps-bind, Keeps-if,
}
use vpc_workflow_demo.Top.Orchestrator.{Answer, respond, answer_of, all_zones}
use vpc_workflow_demo.Top.Orchestrator.Reads.{
  Keeps-get_vpc_by_name, Keeps-get_pccn_by_name, Keeps-get_az, Keeps-get_region_azs,
  Keeps-check_az_health, Keeps-check_zones, Keeps-submit_saga, Keeps-zones_of,
}
use vpc_workflow_demo.Top.Subnets.{register_subnet}
use vpc_workflow_demo.Top.Subnets.Fails.{Fails, IsOk, register_subnet-Fails}
use vpc_workflow_demo.Top.Create.{
  create_region_vpc, create_az_subnet, sync_subnet, if_healthy, pass_over, passed, subnet_row,
  zone_or_empty,
}
use vpc_workflow_demo.Top.Connect.{
  create_pccn, delete_pccn, referred, check_status, get_azs_from_region_and_vpc, zones_or_none,
}

-- The tables and the registry are the same; the number of calls may differ.
pub record SameTables (v w : Top) : Type 0 where
  pub vpcs : w.vpcs ≡ v.vpcs
  pub subnets : w.subnets ≡ v.subnets
  pub mappings : w.mappings ≡ v.mappings
  pub pccns : w.pccns ≡ v.pccns
  pub azs : w.azs ≡ v.azs
  pub regions : w.regions ≡ v.regions

-- An answer with success.
unfoldable pub IsAccepted : Result Answer → Type 0
IsAccepted (ok a) = a.response.success ≡ true
IsAccepted (err _) = ⊥

same : (v : Top) → SameTables v v
same v = record {
  vpcs = refl;
  subnets = refl;
  mappings = refl;
  pccns = refl;
  azs = refl;
  regions = refl;
}

pub SameTables-stable : (v : Top) → IsStable (SameTables v)
SameTables-stable v = record {
  stable = λ w h. record {
    vpcs = h.vpcs;
    subnets = h.subnets;
    mappings = h.mappings;
    pccns = h.pccns;
    azs = h.azs;
    regions = h.regions;
  };
}

-- The action is accepted, or keeps `P`.
record Refuses (P : Top → Type 0) (m : Act Answer) : Type 0 where
  at : (e : TopEnv) (w : Top) → P w → IsAccepted (m e w).0 ⊎ P (m e w).1

module _ {P : Top → Type 0} where
  Refuses-respond : (m : Act Answer) → Refuses P m → Refuses P (respond m)
  unfolding respond attempt pure IsAccepted
  Refuses-respond m h = record { at = λ e w p. answered (m e w).0 (m e w).1 (h.at e w p) }
    where
      answered :
          (r : Result Answer) (w : Top) → IsAccepted r ⊎ P w → IsAccepted (ok (answer_of r)) ⊎ P w
      answered (ok a) w h = h
      answered (err x) w (inl c) = elim c [ ]
      answered (err x) w (inr p) = inr p

  Refuses-bind {ℓ} :
      {A : Type ℓ} (m : Act A) (f : A → Act Answer)
      → Keeps P m
      → ((a : A) → Refuses P (f a))
      → Refuses P (m >>= f)
  Refuses-bind {A = A} m f h k = record {
    at = λ e w p. continued (m e w).0 e (m e w).1 (h.at e w p);
  }
    where
      continued :
          (r : Result A) (e : TopEnv) (w : Top)
          → P w
          → IsAccepted (continue r f e w).0 ⊎ P (continue r f e w).1
      continued (ok a) e w p = (k a).at e w p
      continued (err x) e w p = inr p

  -- The last writes of an accepted request.
  Refuses-accepted :
      (m : Act (Unit {0})) (a : Answer)
      → a.response.success ≡ true
      → Refuses P (ignore m >>= λ _. pure a)
  unfolding ignore pure IsAccepted
  Refuses-accepted m a good = record { at = λ e w p. inl good }

module _ {P : Top → Type 0} (s : IsStable P) where
  refused-create_region_vpc : (req : VpcRequest) → Refuses P (create_region_vpc req)
  unfolding create_region_vpc
  refused-create_region_vpc req = Refuses-respond _ (
      Refuses-bind _ _ (Keeps-or_wrap _ _ (Keeps-get_region_azs s _)) (λ azs.
        Refuses-bind _ _ (Keeps-check_zones s _ azs) (λ _.
          Refuses-bind _ _ (Keeps-new_uuid s) (λ id.
            Refuses-bind _ _ (Keeps-submit_saga s _ _ _) (λ tx. Refuses-accepted _ _ refl)))))

  if_healthy-Keeps : (az : String) (r : Result Bool) → Keeps P (if_healthy az r)
  unfolding if_healthy
  if_healthy-Keeps az (ok true) = Keeps-pure _
  if_healthy-Keeps az (ok false) = Keeps-raise _
  if_healthy-Keeps az (err x) = Keeps-raise _

  -- A subnet that is registered, or not because of an error, is answered with success; a panic is not.
  pass_over-Refuses :
      (m : Act (Unit {0})) (a : Answer)
      → a.response.success ≡ true
      → Fails P m
      → Refuses P (pass_over m >>= λ _. pure a)
  unfolding pass_over pure IsAccepted
  pass_over-Refuses m a good f = record { at = λ e w p. told (m e w).0 (m e w).1 e (f.at e w p) }
    where
      told :
          (r : Result (Unit {0})) (w : Top) (e : TopEnv)
          → IsOk r ⊎ P w
          → IsAccepted (continue (passed r) (λ _. pure a) e w).0
            ⊎ P (continue (passed r) (λ _. pure a) e w).1
      told (ok x) w e h = inl good
      told (err no_rows) w e h = inl good
      told (err (external x)) w e h = inl good
      told (err (fail x)) w e h = inl good
      told (err (wrap x y)) w e h = inl good
      told (err panic) w e (inl h) = elim h [ ]
      told (err panic) w e (inr p) = inr p

  -- What follows the answer of the zone, by whether it is a success.
  after_zone :
      (req : SubnetRequest) (resp : CreateResponse) (b : Bool)
      → resp.success ≡ b
      → Refuses P (
          (if b then sync_subnet req resp else pure tt) >>= λ _.
          pure (record { response = resp; background = none }))
  unfolding sync_subnet pure attempt IsAccepted new_uuid
  after_zone req resp true good = record {
    at = λ e w p.
        (Refuses-bind _ _ (Keeps-attempt _ (Keeps-get_vpc_by_name s _)) (λ v.
            Refuses-bind _ _ (Keeps-new_uuid s) (λ id.
              pass_over-Refuses (register_subnet (subnet_row req id resp (zone_or_empty v)))
                (record { response = resp; background = none }) good
                (register_subnet-Fails s _)))).at
          e w p;
  }
  after_zone req resp false bad = record { at = λ e w p. inr p }

  refused-create_az_subnet : (req : SubnetRequest) → Refuses P (create_az_subnet req)
  unfolding create_az_subnet
  refused-create_az_subnet req = Refuses-respond _ (
      Refuses-bind _ _ (Keeps-or_wrap _ _ (Keeps-get_az s _ _)) (λ az.
        Refuses-bind _ _ (Keeps-attempt _ (Keeps-check_az_health s _ _)) (λ healthy.
          Refuses-bind _ _ (if_healthy-Keeps _ healthy) (λ _.
            Refuses-bind _ _ (Keeps-or_wrap _ _ (Keeps-call s _))
              (λ resp. after_zone req resp resp.success refl)))))

  referred-Keeps : (text : String) (ref : VpcRef) → Keeps P (referred text ref)
  unfolding referred
  referred-Keeps text ref =
      Keeps-bind _ _ (Keeps-or_wrap _ _ (Keeps-get_vpc_by_name s _))
        (λ v. Keeps-if _ _ _ (Keeps-pure _) (Keeps-raise _))

  refused-create_pccn : (req : PccnRequest) → Refuses P (create_pccn req)
  unfolding create_pccn
  refused-create_pccn req = Refuses-respond _ (
      Refuses-bind (referred "VPC1" req.vpc1) _ (referred-Keeps "VPC1" req.vpc1) (λ v1.
        Refuses-bind (referred "VPC2" req.vpc2) _ (referred-Keeps "VPC2" req.vpc2) (λ v2.
          Refuses-bind _ _ (Keeps-zones_of s v1.region v1.az_details) (λ azs1.
            Refuses-bind _ _ (Keeps-zones_of s v2.region v2.az_details) (λ azs2.
              Refuses-bind _ _ (Keeps-check_zones s _ (all_zones azs1 azs2)) (λ _.
                Refuses-bind _ _ (Keeps-new_uuid s) (λ id.
                  Refuses-bind _ _ (Keeps-submit_saga s _ _ _)
                    (λ tx. Refuses-accepted _ _ refl))))))))

  pub check_status-Keeps : (p : PccnRegistry) → Keeps P (check_status p)
  unfolding check_status
  check_status-Keeps p = Keeps-if _ _ _ (Keeps-pure _) (Keeps-raise _)

  zones_or_none-Keeps :
      (region : String) (r : Result VpcRegistry) → Keeps P (zones_or_none region r)
  zones_or_none-Keeps region (ok v) = Keeps-zones_of s _ _
  zones_or_none-Keeps region (err x) = Keeps-pure _

  pub zones-Keeps : (region name : String) → Keeps P (get_azs_from_region_and_vpc region name)
  unfolding get_azs_from_region_and_vpc
  zones-Keeps region name =
      Keeps-bind _ _ (Keeps-attempt _ (Keeps-get_vpc_by_name s name))
        (λ r. zones_or_none-Keeps region r)

  refused-delete_pccn : (name : String) → Refuses P (delete_pccn name)
  unfolding delete_pccn
  refused-delete_pccn name = Refuses-respond _ (
      Refuses-bind _ _ (Keeps-or_wrap _ _ (Keeps-get_pccn_by_name s _)) (λ p.
        Refuses-bind _ _ (check_status-Keeps p) (λ _. Refuses-bind _ _ (zones-Keeps _ _) (λ azs1.
          Refuses-bind _ _ (zones-Keeps _ _) (λ azs2.
            Refuses-bind _ _ (Keeps-submit_saga s _ _ _) (λ tx. Refuses-accepted _ _ refl))))))

-- The requests that change a table.
pub data Request : Type 0 where
  vpc_creation : VpcRequest → Request
  subnet_creation : SubnetRequest → Request
  pccn_creation : PccnRequest → Request
  pccn_deletion : String → Request

abbrev pub serve : Request → Act Answer
serve (Request.vpc_creation req) = create_region_vpc req
serve (Request.subnet_creation req) = create_az_subnet req
serve (Request.pccn_creation req) = create_pccn req
serve (Request.pccn_deletion name) = delete_pccn name

serve-Refuses : {P : Top → Type 0} → IsStable P → (q : Request) → Refuses P (serve q)
serve-Refuses s (Request.vpc_creation req) = refused-create_region_vpc s req
serve-Refuses s (Request.subnet_creation req) = refused-create_az_subnet s req
serve-Refuses s (Request.pccn_creation req) = refused-create_pccn s req
serve-Refuses s (Request.pccn_deletion name) = refused-delete_pccn s name

-- Whichever calls fail and whatever the zones and the saga library answer, a request to create a VPC, a
-- subnet or a PCCN or to delete a PCCN is answered with success, or leaves every table and the registry
-- as they were.
pub serve-SameTables :
    (q : Request) (e : TopEnv) (w : Top) → IsAccepted (serve q e w).0 ⊎ SameTables w (serve q e w).1
serve-SameTables q e w = (serve-Refuses (SameTables-stable w) q).at e w (same w)
