-- ===== src/Dao/Vpc.antt =====
-- `VPCDAO` of internal/db/dao/dao.go: the table `vpc_resources`.
use vpc_workflow_demo.World.{Exec, World, db_query, ok}
use vpc_workflow_demo.Models.{VpcResource, vpc, SubnetResource, is_deleted}
use vpc_workflow_demo.Prelude.{
  String, List, ℕ, select, Bool, ◌=?◌, count_where, length, ◌&&◌, not, ◌∷◌, ◌++◌, [],
}
use vpc_workflow_demo.Dao.Table
use vpc_workflow_demo.Dao.Table.{ResourceStore, has_name}

abbrev pub create : VpcResource → Exec (Unit {0})
create r = Table.insert vpc (has_name r.name r.az) r

abbrev pub get_by_name : String → String → Exec VpcResource
get_by_name = Table.get_by_name vpc

abbrev pub get_by_id : String → Exec VpcResource
get_by_id = Table.get_by_id vpc

abbrev pub store : ResourceStore
store = Table.store vpc

abbrev pub list_all : Exec (List VpcResource)
list_all = Table.list_all vpc

abbrev pub delete : String → Exec (Unit {0})
delete id = Table.delete_where vpc (Table.has_id id)

-- A subnet that is not deleted, of the given VPC and AZ.
abbrev pub is_live_subnet_of : String → String → SubnetResource → Bool
is_live_subnet_of vpc_name az s =
    (s.attrs.vpc_name =? vpc_name) && (s.az =? az) && not (is_deleted s.status)

unfoldable pub count_subnets : String → String → Exec ℕ
count_subnets vpc_name az =
    db_query (λ w. ok (count_where (is_live_subnet_of vpc_name az) w.rows.subnets))

-- The join of the subnets with the VPC rows of one id.
unfoldable pub joined_subnets : List VpcResource → List SubnetResource → List SubnetResource
joined_subnets [] ss = []
joined_subnets (v ∷ vs) ss = select (is_live_subnet_of v.name v.az) ss ++ joined_subnets vs ss

unfoldable pub subnets_of_vpc : String → World → List SubnetResource
unfolding joined_subnets
subnets_of_vpc vpc_id w = joined_subnets (select (Table.has_id vpc_id) w.rows.vpcs) w.rows.subnets

unfoldable pub count_subnets_by_vpc_id : String → Exec ℕ
unfolding subnets_of_vpc
count_subnets_by_vpc_id vpc_id = db_query (λ w. ok (length (subnets_of_vpc vpc_id w)))
