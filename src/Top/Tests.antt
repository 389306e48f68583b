-- ===== src/Top/Tests.antt =====
-- Two VPCs and two ranges, and the theorems of the top layer at them.
mod Background
mod Connection
mod Zones
mod Requests
use vpc_workflow_demo.Prelude.{
  ◌≡◌, ◌+◌, ◌≤◌, ◌<◌, refl, true, inl, inr, none, some, Option, String, List, [], ◌∷◌, arith, ℕ,
  ◌=?◌, if◌then◌else◌, ◌+++◌,
}
use vpc_workflow_demo.Models.{ResourceStatus}
use vpc_workflow_demo.World.{ok, err, external}
use vpc_workflow_demo.Top.World.{
  Top, TopEnv, IsCalm, Az, AzDetail, CidrZoneMapping, Network, IpNet, ZoneInfo, tick,
}
use vpc_workflow_demo.Top.Status.{compute_overall_status}
use vpc_workflow_demo.Top.Status.Order.{
  Overall, compute_overall_status-Within, compute_overall_status-Overall,
}
use vpc_workflow_demo.Top.Range.{IsNetwork, cidr_to_range, cidr_to_range-network, uint32_size}
use vpc_workflow_demo.Top.Subnets.{find_zone_by_ip}
use vpc_workflow_demo.Top.Subnets.Smallest.{Found, find_zone_by_ip-Found}

-- 10.0.1.0/24
abbrev net : Network
net = record { address = 167772416; ones = 24 }

abbrev pub top_env : TopEnv
top_env = record {
  fault = λ _. none;
  clock = λ n. 100 + n;
  uuid = λ n. "u";
  parse_cidr = λ s. if s =? "10.0.1.0/24" then some (IpNet.v4 net) else none;
  parse_ip = λ s. if s =? "10.0.1.5" then some 167772421 else none;
  saga_query = λ n tx. err (external "no saga");
  vpc_status = λ n addr name. ok (record { status = ResourceStatus.running; error_message = "" });
  pccn_status = λ n addr name. ok (record { status = ResourceStatus.running; error_message = "" });
  health_check = λ n addr. none;
  saga_build = λ d. none;
  saga_submit = λ n d. ok "tx";
  create_subnet = λ n addr req.
      ok (record { success = true; message = ""; id = "subnet-a"; workflow_id = "subnet-a" });
}

abbrev pub top_calm : IsCalm top_env
top_calm = record { no_fault = λ n. refl }

abbrev pub zone_detail : String → AzDetail
zone_detail s = record { status = s; az_vpc_id = ""; error = "" }

abbrev running_zone : String × AzDetail
running_zone = ("a", zone_detail "running")

abbrev failed_zone : String × AzDetail
failed_zone = ("b", zone_detail "failed")

compute_overall_status-Within_example :
    compute_overall_status (running_zone ∷ failed_zone ∷ [])
    ≡ compute_overall_status (failed_zone ∷ running_zone ∷ [])
compute_overall_status-Within_example =
    compute_overall_status-Within (running_zone ∷ failed_zone ∷ [])
      (failed_zone ∷ running_zone ∷ [])
      (λ p m. elim m [ inl x ↦ inr (inl x) | inr (inl y) ↦ inl y | inr (inr y) ↦ elim y [ ] ])
      (λ p m. elim m [ inl x ↦ inr (inl x) | inr (inl y) ↦ inl y | inr (inr y) ↦ elim y [ ] ])

compute_overall_status-Overall_example :
    Overall
      (running_zone ∷ failed_zone ∷ [])
      (compute_overall_status (running_zone ∷ failed_zone ∷ []))
compute_overall_status-Overall_example =
    compute_overall_status-Overall (running_zone ∷ failed_zone ∷ [])

net-IsNetwork : IsNetwork net
net-IsNetwork = record { prefix = omega arith; block = 655361; masked = refl; fits = omega arith }

cidr_to_range-network_example :
    (r : ℕ × ℕ) × (cidr_to_range top_env "10.0.1.0/24" ≡ some r)
    × (r.0 ≡ 167772416)
    × (r.1 + 1 ≡ 167772672)
    × (r.0 ≤ r.1)
    × (r.1 < uint32_size)
cidr_to_range-network_example = cidr_to_range-network top_env "10.0.1.0/24" net refl net-IsNetwork

abbrev mapping : String → String → ℕ → CidrZoneMapping
mapping name cidr end = record {
  id = name;
  cidr = cidr;
  cidr_start = 167772416;
  cidr_end = end;
  vpc_name = "shop";
  subnet_name = name;
  region = "cn";
  az = "a";
  firewall_zone = "z";
  created_at = 3;
}

abbrev pub az_named : String → Az
az_named id = record {
  id = id;
  region = "cn";
  name = "";
  nsp_addr = "http://" +++ id;
  status = "online";
  last_heartbeat = 90;
}

abbrev pub tables : Top
tables = record {
  calls = 7;
  vpcs = [];
  subnets = [];
  mappings = mapping "wide" "10.0.1.0/24" 167772671 ∷ mapping "narrow" "10.0.1.0/28" 167772431 ∷ [];
  pccns = [];
  azs = [];
  regions = [];
}

find_zone_by_ip-Found_example :
    (r : Option ZoneInfo) × (find_zone_by_ip "10.0.1.5" top_env tables ≡ (ok r, tick tables))
    × Found 167772421 tables.mappings r
find_zone_by_ip-Found_example =
    find_zone_by_ip-Found top_env "10.0.1.5" 167772421 tables top_calm refl
