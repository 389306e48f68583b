-- ===== src/Dao/Pccn.antt =====
-- internal/db/dao/pccn_dao.go: the table `pccn_resources`.
pub mod Conflict
use vpc_workflow_demo.World.{Exec, db_exec}
use vpc_workflow_demo.Models.{ResourceStatus, pccn, PccnResource}
use vpc_workflow_demo.Prelude.{
  String, Option, ℕ, List, Bool, find_where, if◌then◌else◌, true, false, some, update_where, none,
}
use vpc_workflow_demo.Dao.Table
use vpc_workflow_demo.Dao.Table.{ResourceStore, has_name}

-- The statuses of a row that a second `INSERT` may overwrite.
abbrev pub is_replaceable : ResourceStatus → Bool
is_replaceable ResourceStatus.pending = true
is_replaceable ResourceStatus.failed = true
is_replaceable ResourceStatus.deleted = true
is_replaceable _ = false

-- `ON CONFLICT (pccn_name, az) DO UPDATE`: the row keeps its id, its counters and all columns but
-- three.
unfoldable pub overwrite : ℕ → PccnResource → PccnResource → PccnResource
overwrite t new old =
    if is_replaceable old.status
    then record old {
      status = new.status;
      attrs = record (old.attrs) { subnets = new.attrs.subnets };
      updated_at = t;
    }
    else old

unfoldable pub create_unless : Option PccnResource → PccnResource → Exec (Unit {0})
unfolding overwrite
create_unless none r = Table.insert pccn (has_name r.name r.az) r
create_unless (some _) r = db_exec (λ t w.
    Table.set_rows pccn (update_where (has_name r.name r.az) (overwrite t r) w.rows.pccns) w)

unfoldable pub create : PccnResource → Exec (Unit {0})
unfolding create_unless
create r e w = create_unless (find_where (has_name r.name r.az) w.rows.pccns) r e w

abbrev pub get_by_name : String → String → Exec PccnResource
get_by_name = Table.get_by_name pccn

abbrev pub get_by_id : String → Exec PccnResource
get_by_id = Table.get_by_id pccn

abbrev pub store : ResourceStore
store = Table.store pccn

abbrev pub delete : String → Exec (Unit {0})
delete id = Table.delete_where pccn (Table.has_id id)

abbrev pub delete_by_name : String → String → Exec (Unit {0})
delete_by_name name az = Table.delete_where pccn (has_name name az)

abbrev pub list_all : Exec (List PccnResource)
list_all = Table.list_all pccn
