-- ===== src/Top/Pccn.antt =====
-- The statements of internal/top/pccn/dao/dao.go on `pccn_registry`, whose keys are the id and the name.
use vpc_workflow_demo.Prelude.{
  ℕ, String, Bool, not, Option, none, some, List, [], ◌∷◌, ◌++◌, ◌=?◌, ◌&&◌, ◌||◌, ltb, find_where,
  update_where, select, order_by,
}
use vpc_workflow_demo.World.{Result, ok, err, no_rows, external}
use vpc_workflow_demo.Top.World.{PccnRegistry, VpcDetail, Act, db_query, db_exec}

abbrev pub named : String → PccnRegistry → Bool
named name p = p.pccn_name =? name

abbrev pub has_id : String → PccnRegistry → Bool
has_id id p = p.id =? id

abbrev newer : PccnRegistry → PccnRegistry → Bool
newer a b = ltb b.created_at a.created_at

-- `ON CONFLICT (pccn_name)`: the id, the name and the time of creation stay.
unfoldable pub overwrite : ℕ → PccnRegistry → PccnRegistry → PccnRegistry
overwrite t p old = record old {
  vpc1_name = p.vpc1_name;
  vpc1_region = p.vpc1_region;
  vpc2_name = p.vpc2_name;
  vpc2_region = p.vpc2_region;
  status = p.status;
  tx_id = p.tx_id;
  vpc_details = p.vpc_details;
  updated_at = t;
}

unfoldable pub upsert : PccnRegistry → Option PccnRegistry → Option PccnRegistry → Act (Unit {0})
unfolding overwrite
upsert p (some old) _ =
    db_exec (λ t w. record w { pccns = update_where (named p.pccn_name) (overwrite t p) w.pccns })
upsert p none (some _) =
    db_query (λ _. err (external "duplicate key value violates unique constraint"))
upsert p none none =
    db_exec
      (λ t w. record w { pccns = w.pccns ++ record p { created_at = t; updated_at = t } ∷ [] })

unfoldable pub register_pccn : PccnRegistry → Act (Unit {0})
unfolding upsert
register_pccn p e w =
    upsert p (find_where (named p.pccn_name) w.pccns) (find_where (has_id p.id) w.pccns) e w

unfoldable pub one : Option PccnRegistry → Result PccnRegistry
one none = err no_rows
one (some p) = ok p

unfoldable pub get_pccn_by_name : String → Act PccnRegistry
unfolding one
get_pccn_by_name name = db_query (λ w. one (find_where (named name) w.pccns))

unfoldable pub get_pccn_by_id : String → Act PccnRegistry
unfolding one
get_pccn_by_id id = db_query (λ w. one (find_where (has_id id) w.pccns))

unfoldable pub set_status : ℕ → String → List (String × VpcDetail) → PccnRegistry → PccnRegistry
set_status t status details p = record p { status = status; vpc_details = details; updated_at = t }

unfoldable pub update_pccn_status : String → String → List (String × VpcDetail) → Act (Unit {0})
unfolding set_status
update_pccn_status name status details =
    db_exec
      (λ t w. record w { pccns = update_where (named name) (set_status t status details) w.pccns })

unfoldable pub update_pccn_tx_id : String → String → Act (Unit {0})
update_pccn_tx_id name tx = db_exec (λ t w. record w {
  pccns = update_where (named name) (λ p. record p { tx_id = tx; updated_at = t }) w.pccns;
})

unfoldable pub delete_pccn : String → Act (Unit {0})
delete_pccn name = db_exec (λ _ w. record w { pccns = select (λ p. not (named name p)) w.pccns })

unfoldable pub list_all_pccns : Act (List PccnRegistry)
list_all_pccns =
    db_query (λ w. ok (order_by newer (select (λ p. not (p.status =? "deleted")) w.pccns)))

unfoldable pub get_pccns_by_vpc_name : String → Act (List PccnRegistry)
get_pccns_by_vpc_name name = db_query (λ w. ok (
    order_by newer (
      select (λ p. ((p.vpc1_name =? name) || (p.vpc2_name =? name)) && not (p.status =? "deleted"))
        w.pccns)))
