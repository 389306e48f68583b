-- ===== src/Dao/Subnet.antt =====
-- `SubnetDAO` of internal/db/dao/dao.go: the table `subnet_resources`.
use vpc_workflow_demo.World.{Exec, db_query, ok}
use vpc_workflow_demo.Models.{SubnetResource, subnet}
use vpc_workflow_demo.Prelude.{String, List, order_by, select}
use vpc_workflow_demo.Dao.Table
use vpc_workflow_demo.Dao.Vpc
use vpc_workflow_demo.Dao.Table.{ResourceStore, has_name, newer}

abbrev pub create : SubnetResource → Exec (Unit {0})
create r = Table.insert subnet (has_name r.name r.az) r

abbrev pub get_by_name : String → String → Exec SubnetResource
get_by_name = Table.get_by_name subnet

abbrev pub get_by_id : String → Exec SubnetResource
get_by_id = Table.get_by_id subnet

abbrev pub store : ResourceStore
store = Table.store subnet

abbrev pub delete : String → Exec (Unit {0})
delete id = Table.delete_where subnet (Table.has_id id)

unfoldable pub list_by_vpc_name : String → String → Exec (List SubnetResource)
list_by_vpc_name vpc_name az =
    db_query (λ w. ok (order_by newer (select (Vpc.is_live_subnet_of vpc_name az) w.rows.subnets)))

unfoldable pub list_by_vpc_id : String → Exec (List SubnetResource)
list_by_vpc_id vpc_id = db_query (λ w. ok (order_by newer (Vpc.subnets_of_vpc vpc_id w)))
