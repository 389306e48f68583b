-- ===== src/Top/Registry/Erased.antt =====
-- A heartbeat of internal/top/registry/registry.go whose first read fails.
use vpc_workflow_demo.Prelude.{◌+◌, ◌≡◌, String, none, some, refl, Option-cases, inl, inr}
use vpc_workflow_demo.World.{ok}
use vpc_workflow_demo.Top.World.{
  Top, TopEnv, Stored, attempt, ignore, db_query, query_unless, db_exec, exec_unless, pure, now,
  or_wrap, wrap_result,
}
use vpc_workflow_demo.Top.Registry.{
  az_key, find_key, ttl, redis_get, redis_set, redis_sadd, heartbeat, get_az,
}
use vpc_workflow_demo.Top.Registry.Health.{find_key-set_key}

-- If only the read of a heartbeat fails, whatever the store holds, then the heartbeat is answered without
-- an error, and the zone's record has no address and no name any more.
pub heartbeat-erased :
    (region id reason : String) (e : TopEnv) (w : Top)
    → e.fault w.calls ≡ some reason
    → e.fault (w.calls + 1) ≡ none
    → ((heartbeat region id e w).0 ≡ ok tt)
      × ((s : Stored) × (find_key (az_key region id) (heartbeat region id e w).1.azs ≡ some s)
          × (s.value.nsp_addr ≡ "")
          × (s.value.name ≡ "")
          × (s.value.status ≡ "online"))
unfolding heartbeat get_az redis_get redis_set redis_sadd attempt ignore db_query query_unless
    db_exec exec_unless pure now or_wrap wrap_result
heartbeat-erased region id reason e w broken works =
    let t = e.clock (w.calls + 1) in
    let stored : Stored = record {
      value = record {
        id = id;
        region = region;
        name = "";
        nsp_addr = "";
        status = "online";
        last_heartbeat = t;
      };
      expires_at = t + ttl;
    } in
    let kept = find_key-set_key (az_key region id) stored w.azs in
    elim (Option-cases (e.fault (w.calls + 1 + 1))) [
      | inl calm ↦ rw (broken, works, calm) (refl, (stored, kept, refl, refl, refl))
      | inr p ↦ rw (broken, works, p.1) (refl, (stored, kept, refl, refl, refl))
    ]
