-- ===== src/Top/Vpc.antt =====
-- The statements of internal/top/vpc/dao/dao.go on `vpc_registry`, whose keys are the id and the name.
use vpc_workflow_demo.Prelude.{
  ℕ, String, Bool, not, Option, none, some, List, [], ◌∷◌, ◌++◌, ◌=?◌, ◌&&◌, ltb, find_where,
  update_where, select, order_by,
}
use vpc_workflow_demo.World.{Result, ok, err, no_rows, external}
use vpc_workflow_demo.Top.World.{VpcRegistry, AzDetail, Act, db_query, db_exec}

abbrev pub named : String → VpcRegistry → Bool
named name v = v.vpc_name =? name

abbrev pub has_id : String → VpcRegistry → Bool
has_id id v = v.id =? id

abbrev newer : VpcRegistry → VpcRegistry → Bool
newer a b = ltb b.created_at a.created_at

-- `ON CONFLICT (vpc_name)`: the id, the name, the region and the time of creation stay.
unfoldable pub overwrite : ℕ → VpcRegistry → VpcRegistry → VpcRegistry
overwrite t v old = record old {
  vrf_name = v.vrf_name;
  vlan_id = v.vlan_id;
  firewall_zone = v.firewall_zone;
  status = v.status;
  saga_tx_id = v.saga_tx_id;
  az_details = v.az_details;
  updated_at = t;
}

unfoldable pub upsert : VpcRegistry → Option VpcRegistry → Option VpcRegistry → Act (Unit {0})
unfolding overwrite
upsert v (some old) _ =
    db_exec (λ t w. record w { vpcs = update_where (named v.vpc_name) (overwrite t v) w.vpcs })
upsert v none (some _) =
    db_query (λ _. err (external "duplicate key value violates unique constraint"))
upsert v none none =
    db_exec (λ t w. record w { vpcs = w.vpcs ++ record v { created_at = t; updated_at = t } ∷ [] })

unfoldable pub register_vpc : VpcRegistry → Act (Unit {0})
unfolding upsert
register_vpc v e w =
    upsert v (find_where (named v.vpc_name) w.vpcs) (find_where (has_id v.id) w.vpcs) e w

unfoldable pub set_overall : ℕ → String → List (String × AzDetail) → VpcRegistry → VpcRegistry
set_overall t status details v = record v { status = status; az_details = details; updated_at = t }

unfoldable pub update_vpc_overall_status :
    String → String → List (String × AzDetail) → Act (Unit {0})
unfolding set_overall
update_vpc_overall_status name status details =
    db_exec
      (λ t w. record w { vpcs = update_where (named name) (set_overall t status details) w.vpcs })

unfoldable pub one : Option VpcRegistry → Result VpcRegistry
one none = err no_rows
one (some v) = ok v

unfoldable pub get_vpc_by_name : String → Act VpcRegistry
unfolding one
get_vpc_by_name name = db_query (λ w. one (find_where (named name) w.vpcs))

unfoldable pub get_vpc_by_id : String → Act VpcRegistry
unfolding one
get_vpc_by_id id = db_query (λ w. one (find_where (has_id id) w.vpcs))

unfoldable pub get_vpcs_by_zone : String → Act (List VpcRegistry)
get_vpcs_by_zone zone =
    db_query (λ w. ok (select (λ v. (v.firewall_zone =? zone) && (v.status =? "running")) w.vpcs))

unfoldable pub delete_vpc : String → Act (Unit {0})
delete_vpc name = db_exec (λ _ w. record w { vpcs = select (λ v. not (named name v)) w.vpcs })

unfoldable pub list_all_vpcs : Act (List VpcRegistry)
list_all_vpcs =
    db_query (λ w. ok (order_by newer (select (λ v. not (v.status =? "deleted")) w.vpcs)))
