-- ===== src/Top/Tests/Zones.antt =====
-- The registry of zones at one zone.
use vpc_workflow_demo.Prelude.{◌≡◌, refl, true, some, none, [], ◌∷◌, ltb, if◌then◌else◌, arith}
use vpc_workflow_demo.World.{ok}
use vpc_workflow_demo.Top.World.{Top, TopEnv, Stored}
use vpc_workflow_demo.Top.Registry.{az_key, find_key, heartbeat, register_az, check_az_health}
use vpc_workflow_demo.Top.Registry.Health.{check_az_health-register_az}
use vpc_workflow_demo.Top.Registry.Erased.{heartbeat-erased}
use vpc_workflow_demo.Top.Tests.{az_named, top_env, top_calm, tables}

check_az_health-register_az_example :
    ((register_az (az_named "a") top_env tables).0 ≡ ok tt)
    × ((check_az_health "cn" "a" top_env (register_az (az_named "a") top_env tables).1).0 ≡ ok true)
check_az_health-register_az_example =
    check_az_health-register_az (az_named "a") top_env tables top_calm (omega arith)

abbrev zoned : Top
zoned = record tables {
  azs = (az_key "cn" "a", record { value = az_named "a"; expires_at = 90000 }) ∷ [];
}

-- Only the seventh call fails.
abbrev broken_read : TopEnv
broken_read = record top_env { fault = λ n. if ltb 7 n then none else some "timeout" }

heartbeat-erased_example :
    ((heartbeat "cn" "a" broken_read zoned).0 ≡ ok tt)
    × ((s : Stored) × (find_key (az_key "cn" "a") (heartbeat "cn" "a" broken_read zoned).1.azs
          ≡ some s)
        × (s.value.nsp_addr ≡ "")
        × (s.value.name ≡ "")
        × (s.value.status ≡ "online"))
heartbeat-erased_example = heartbeat-erased "cn" "a" "timeout" broken_read zoned refl refl
