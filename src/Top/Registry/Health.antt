-- ===== src/Top/Registry/Health.antt =====
-- The health of a zone that internal/top/registry/registry.go has registered.
use vpc_workflow_demo.Prelude.{
  ◌+◌, ◌-◌, ◌<◌, ◌≡◌, refl, String, true, some, List, [], ◌∷◌, ◌=?◌, ltb, not, inl, inr, Bool-cases,
  text_eq_refl, arith,
}
use vpc_workflow_demo.World.{ok}
use vpc_workflow_demo.Top.World.{
  Top, TopEnv, IsCalm, Az, set_key, db_query, query_unless, db_exec, exec_unless, pure, now,
  or_wrap, wrap_result, Stored,
}
use vpc_workflow_demo.Top.Registry.{
  az_key, find_key, ttl, redis_get, redis_set, redis_sadd, register_az, get_az, found_az,
  check_az_health,
}

pub find_key-set_key :
    {A : Type 0} (k : String) (a : A) (m : List (String × A)) → find_key k (set_key k a m) ≡ some a
unfolding find_key set_key
find_key-set_key k a [] = rw (text_eq_refl k) refl
find_key-set_key k a ((j, b) ∷ m) = elim (Bool-cases (j =? k)) [
  | inl t ↦ rw (t, text_eq_refl k) refl
  | inr f ↦ rw (f, f) (find_key-set_key k a m)
]

-- If no call fails, a zone that is registered and then asked about, before its record expires, is
-- healthy if and only if at most 300 seconds have passed since.
pub check_az_health-register_az :
    (az : Az) (e : TopEnv) (w : Top)
    → IsCalm e
    → e.clock (w.calls + 1 + 1) < e.clock w.calls + ttl
    → ((register_az az e w).0 ≡ ok tt)
      × ((check_az_health az.region az.id e (register_az az e w).1).0
          ≡ ok (not (ltb 300 (e.clock (w.calls + 1 + 1 + 1) - e.clock w.calls))))
unfolding register_az check_az_health get_az found_az redis_get redis_set redis_sadd db_query
    query_unless db_exec exec_unless pure now or_wrap wrap_result
check_az_health-register_az az e w calm fresh =
    let stored : Stored = record {
      value = record az { last_heartbeat = e.clock w.calls; status = "online" };
      expires_at = e.clock w.calls + ttl;
    } in
    let kept = find_key-set_key (az_key az.region az.id) stored w.azs in
    let live : ltb (e.clock (w.calls + 1 + 1)) (e.clock w.calls + ttl) ≡ true =
      ground (arith, fresh) in
    elim (Bool-cases (ltb 300 (e.clock (w.calls + 1 + 1 + 1) - e.clock w.calls))) [
      | inl t ↦ rw (calm.no_fault, calm.no_fault, calm.no_fault, kept, live, t) (refl, refl)
      | inr f ↦ rw (calm.no_fault, calm.no_fault, calm.no_fault, kept, live, f) (refl, refl)
    ]
