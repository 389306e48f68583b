-- ===== src/Top/Subnets.antt =====
-- The statements of internal/top/vpc/dao/dao.go on `subnet_registry` and `cidr_zone_mapping`. A
-- transaction writes when it commits: a statement of it that fails leaves the tables as they were.
pub mod Fails
pub mod Smallest
use vpc_workflow_demo.Prelude.{
  ℕ, String, Bool, not, Option, none, some, List, [], ◌∷◌, ◌++◌, ◌=?◌, ◌&&◌, ◌-◌, ltb, leb,
  find_where, update_where, select, order_by, first, if◌then◌else◌,
}
use vpc_workflow_demo.World.{Result, ok, err, no_rows, external, panic}
use vpc_workflow_demo.Top.World.{
  SubnetRegistry, CidrZoneMapping, ZoneInfo, Top, TopEnv, Act, db_query, db_exec, db_call, asked,
  pure, attempt, raise, tick, ◌>>=◌, ◌>>◌,
}
use vpc_workflow_demo.Top.Range.{cidr_to_range}
use vpc_workflow_demo.Top.Vpc.{get_vpc_by_id}

abbrev pub is_subnet : String → String → SubnetRegistry → Bool
is_subnet name az s = (s.subnet_name =? name) && (s.az =? az)

abbrev pub is_mapping : String → String → CidrZoneMapping → Bool
is_mapping cidr az m = (m.cidr =? cidr) && (m.az =? az)

abbrev newer : SubnetRegistry → SubnetRegistry → Bool
newer a b = ltb b.created_at a.created_at

-- `ON CONFLICT (subnet_name, az)`
unfoldable pub overwrite_subnet : ℕ → SubnetRegistry → SubnetRegistry → SubnetRegistry
overwrite_subnet t s old = record old {
  az_subnet_id = s.az_subnet_id;
  cidr = s.cidr;
  firewall_zone = s.firewall_zone;
  status = s.status;
  updated_at = t;
}

unfoldable pub put_subnet :
    ℕ → SubnetRegistry → Option SubnetRegistry → List SubnetRegistry → List SubnetRegistry
unfolding overwrite_subnet
put_subnet t s (some _) l = update_where (is_subnet s.subnet_name s.az) (overwrite_subnet t s) l
put_subnet t s none l = l ++ record s { created_at = t; updated_at = t } ∷ []

-- `ON CONFLICT (cidr, az)`
unfoldable pub overwrite_mapping : CidrZoneMapping → CidrZoneMapping → CidrZoneMapping
overwrite_mapping m old = record old {
  cidr_start = m.cidr_start;
  cidr_end = m.cidr_end;
  firewall_zone = m.firewall_zone;
}

unfoldable pub put_mapping :
    ℕ → CidrZoneMapping → Option CidrZoneMapping → List CidrZoneMapping → List CidrZoneMapping
unfolding overwrite_mapping
put_mapping t m (some _) l = update_where (is_mapping m.cidr m.az) (overwrite_mapping m) l
put_mapping t m none l = l ++ record m { created_at = t } ∷ []

unfoldable pub mapping_of : ℕ × ℕ → SubnetRegistry → String → CidrZoneMapping
mapping_of r s id = record {
  id = id;
  cidr = s.cidr;
  cidr_start = r.0;
  cidr_end = r.1;
  vpc_name = s.vpc_name;
  subnet_name = s.subnet_name;
  region = s.region;
  az = s.az;
  firewall_zone = s.firewall_zone;
  created_at = 0;
}

-- An insert whose id is in the table is an error of the database, as in the other tables.
unfoldable pub insert_allowed : Option SubnetRegistry → Option SubnetRegistry → Act (Unit {0})
insert_allowed none (some _) =
    db_query (λ _. err (external "duplicate key value violates unique constraint"))
insert_allowed _ _ = db_call

unfoldable pub both_rows : ℕ × ℕ → SubnetRegistry → String → ℕ → Top → Top
unfolding put_subnet put_mapping mapping_of
both_rows r s id t w = record w {
  subnets = put_subnet t s (find_where (is_subnet s.subnet_name s.az) w.subnets) w.subnets;
  mappings =
      put_mapping t (mapping_of r s id) (find_where (is_mapping s.cidr s.az) w.mappings) w.mappings;
}

-- The four calls are `BeginTx`, the two inserts and `Commit`.
-- The second insert and `Commit`; a panic rolls the transaction back.
unfoldable pub commit_rows : SubnetRegistry → String → Option (ℕ × ℕ) → Act (Unit {0})
unfolding both_rows
commit_rows s id none = raise panic
commit_rows s id (some r) = do db_call; db_exec (both_rows r s id)

unfoldable pub register_subnet : SubnetRegistry → Act (Unit {0})
unfolding insert_allowed commit_rows cidr_to_range
register_subnet s e w =
    (do
      db_call
      insert_allowed (find_where (is_subnet s.subnet_name s.az) w.subnets)
          (find_where (λ x. x.id =? s.id) w.subnets)
      commit_rows s (e.uuid w.calls) (cidr_to_range e s.cidr))
      e w

unfoldable pub update_subnet_status : String → String → String → Act (Unit {0})
update_subnet_status name az status = db_exec (λ t w. record w {
  subnets =
      update_where (is_subnet name az) (λ s. record s { status = status; updated_at = t })
        w.subnets;
})

unfoldable pub cidr_of : Option SubnetRegistry → String
cidr_of none = ""
cidr_of (some s) = s.cidr

unfoldable pub without : String → String → String → Top → Top
without cidr name az w = record w {
  subnets = select (λ s. not (is_subnet name az s)) w.subnets;
  mappings = if cidr =? "" then w.mappings else select (λ m. not (is_mapping cidr az m)) w.mappings;
}

-- `BeginTx`, the query, the delete of the mapping if there is a range, the delete, and `Commit`.
unfoldable pub delete_subnet : String → String → Act (Unit {0})
unfolding cidr_of without
delete_subnet name az = do
  db_call
  cidr ← db_query (λ w. ok (cidr_of (find_where (is_subnet name az) w.subnets)))
  if cidr =? "" then pure tt else db_call
  db_call
  db_exec (λ _. without cidr name az)

unfoldable pub one : Option SubnetRegistry → Result SubnetRegistry
one none = err no_rows
one (some s) = ok s

unfoldable pub get_subnet_by_id : String → Act SubnetRegistry
unfolding one
get_subnet_by_id id = db_query (λ w. one (find_where (λ s. s.id =? id) w.subnets))

unfoldable pub list_subnets_by_vpc_id : String → Act (List SubnetRegistry)
list_subnets_by_vpc_id id = do
  v ← get_vpc_by_id id
  db_query (λ w. ok (
      order_by newer
        (select (λ s. (s.vpc_name =? v.vpc_name) && not (s.status =? "deleted")) w.subnets)))

abbrev pub holds : ℕ → CidrZoneMapping → Bool
holds ip m = leb m.cidr_start ip && leb ip m.cidr_end

-- `ORDER BY (cidr_end - cidr_start) ASC`; the database subtracts with a sign, and a range never ends
-- before it begins.
abbrev pub smaller : CidrZoneMapping → CidrZoneMapping → Bool
smaller a b = ltb (a.cidr_end - a.cidr_start) (b.cidr_end - b.cidr_start)

abbrev pub zone_info : CidrZoneMapping → ZoneInfo
zone_info m = record {
  vpc_name = m.vpc_name;
  subnet_name = m.subnet_name;
  region = m.region;
  az = m.az;
  firewall_zone = m.firewall_zone;
  cidr = m.cidr;
}

abbrev pub info_of : Option CidrZoneMapping → Option ZoneInfo
info_of none = none
info_of (some m) = some (zone_info m)

unfoldable pub find_zone : Option ℕ → Act (Option ZoneInfo)
find_zone none = pure none
find_zone (some ip) =
    db_query (λ w. ok (info_of (first (order_by smaller (select (holds ip) w.mappings)))))

unfoldable pub find_zone_by_ip : String → Act (Option ZoneInfo)
unfolding find_zone
find_zone_by_ip ip e w = find_zone (e.parse_ip ip) e w
