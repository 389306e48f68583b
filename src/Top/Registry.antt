-- ===== src/Top/Registry.antt =====
-- internal/top/registry/registry.go: the zones of a region, in a store whose values expire. An error of
-- the store is one of its calls that fails. `ListAllRegions` and `ListAllAZs` ask the store for the
-- keys of a pattern, and are left out.
pub mod Health
pub mod Erased
use vpc_workflow_demo.Prelude.{
  ℕ, ◌+◌, ◌-◌, String, Bool, true, false, Option, none, some, List, [], ◌∷◌, ◌=?◌, ◌+++◌, ltb,
  if◌then◌else◌,
}
use vpc_workflow_demo.World.{Result, ok, err, fail}
use vpc_workflow_demo.Top.World.{
  Top, Act, Az, Stored, set_key, db_query, db_exec, attempt, ignore, pure, raise, now, or_wrap,
  ◌>>=◌, ◌>>◌,
}
use vpc_workflow_demo.Top.Watch.{member}

abbrev pub az_key : String → String → String
az_key region id = "az:" +++ (region +++ (":" +++ id))

abbrev pub region_key : String → String
region_key region = "region:" +++ (region +++ ":azs")

-- 24 hours, in seconds.
abbrev pub ttl : ℕ
ttl = 86400

unfoldable pub find_key {ℓ} : {A : Type ℓ} → String → List (String × A) → Option A
find_key k [] = none
find_key k ((j, a) ∷ m) = if j =? k then some a else find_key k m

abbrev pub alive : ℕ → Option Stored → Option Az
alive t none = none
alive t (some s) = if ltb t s.expires_at then some s.value else none

-- `Get`; the time is that of the call.
unfoldable pub redis_get : String → Act (Option Az)
unfolding find_key
redis_get k e w = db_query (λ v. ok (alive (e.clock w.calls) (find_key k v.azs))) e w

-- `Set` with an expiry.
unfoldable pub redis_set : String → Az → Act (Unit {0})
unfolding set_key
redis_set k a =
    db_exec (λ t w. record w { azs = set_key k (record { value = a; expires_at = t + ttl }) w.azs })

abbrev pub members_of : Option (List String) → List String
members_of none = []
members_of (some l) = l

abbrev pub with_member : String → List String → List String
with_member a l = if member a l then l else a ∷ l

-- `SAdd`
unfoldable pub redis_sadd : String → String → Act (Unit {0})
unfolding set_key find_key
redis_sadd k a = db_exec (λ _ w. record w {
  regions = set_key k (with_member a (members_of (find_key k w.regions))) w.regions;
})

-- `SMembers`, in an order that is left open.
unfoldable pub redis_smembers : String → Act (List String)
unfolding find_key
redis_smembers k = db_query (λ w. ok (members_of (find_key k w.regions)))

unfoldable pub register_az : Az → Act (Unit {0})
register_az az = do
  t ← now
  or_wrap "存储AZ信息失败"
      (redis_set (az_key az.region az.id) (record az { last_heartbeat = t; status = "online" }))
  or_wrap "添加AZ到Region列表失败" (redis_sadd (region_key az.region) az.id)

unfoldable pub found_az : String → String → Option Az → Act Az
found_az region id none = raise (fail ("AZ不存在: " +++ (region +++ ("/" +++ id))))
found_az region id (some az) = pure az

unfoldable pub get_az : String → String → Act Az
unfolding found_az
get_az region id = do o ← or_wrap "获取AZ信息失败" (redis_get (az_key region id)); found_az region id o

-- A zone that cannot be read is left out.
abbrev pub with_az : Result Az → List Az → List Az
with_az (ok az) azs = az ∷ azs
with_az (err _) azs = azs

unfoldable pub get_azs : String → List String → Act (List Az)
get_azs region [] = pure []
get_azs region (id ∷ ids) = do
  r ← attempt (get_az region id)
  azs ← get_azs region ids
  pure (with_az r azs)

unfoldable pub azs_of : String → List String → Act (List Az)
unfolding get_azs
azs_of region [] = raise (fail ("Region " +++ (region +++ " 没有注册的AZ")))
azs_of region (id ∷ ids) = get_azs region (id ∷ ids)

unfoldable pub get_region_azs : String → Act (List Az)
unfolding azs_of
get_region_azs region = do
  ids ← or_wrap "获取Region的AZ列表失败" (redis_smembers (region_key region))
  azs_of region ids

-- The record that a heartbeat starts from if the zone could not be read.
abbrev pub az_or_new : String → String → ℕ → Result Az → Az
az_or_new region id t (ok az) = az
az_or_new region id t (err _) = record {
  id = id;
  region = region;
  name = "";
  nsp_addr = "";
  status = "online";
  last_heartbeat = t;
}

unfoldable pub heartbeat : String → String → Act (Unit {0})
heartbeat region id = do
  r ← attempt (get_az region id)
  t ← now
  or_wrap "更新心跳失败" (
      redis_set (az_key region id)
        (record (az_or_new region id t r) { last_heartbeat = t; status = "online" }))
  ignore (redis_sadd (region_key region) id)

unfoldable pub check_az_health : String → String → Act Bool
check_az_health region id = do
  az ← get_az region id
  t ← now
  if ltb 300 (t - az.last_heartbeat) then pure false else pure (az.status =? "online")
