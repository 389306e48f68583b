-- ===== src/Dao/Policy.antt =====
-- internal/az/vfw/dao/dao.go: the table `firewall_policies`, whose unique key is the name alone.
use vpc_workflow_demo.World.{Exec, db_query, ok}
use vpc_workflow_demo.Models.{FirewallPolicy, ResourceStatus, firewall_policy}
use vpc_workflow_demo.Prelude.{String, List, Bool, ℕ, ◌=?◌, false, ◌||◌, true, ◌&&◌, count_where}
use vpc_workflow_demo.Dao.Table
use vpc_workflow_demo.Dao.Table.{ResourceStore}

abbrev pub create : FirewallPolicy → Exec (Unit {0})
create r = Table.insert firewall_policy (λ x. x.name =? r.name) r

abbrev pub get_by_id : String → Exec FirewallPolicy
get_by_id = Table.get_by_id firewall_policy

abbrev pub get_by_name : String → String → Exec FirewallPolicy
get_by_name = Table.get_by_name firewall_policy

abbrev pub store : ResourceStore
store = Table.store firewall_policy

abbrev pub delete : String → Exec (Unit {0})
delete id = Table.delete_where firewall_policy (Table.has_id id)

abbrev pub list_all : Exec (List FirewallPolicy)
list_all = Table.list_all firewall_policy

-- A policy that is neither deleted nor failed.
abbrev pub is_in_force : ResourceStatus → Bool
is_in_force ResourceStatus.deleted = false
is_in_force ResourceStatus.failed = false
is_in_force _ = true

abbrev pub counts_for : String → FirewallPolicy → Bool
counts_for zone p =
    ((p.attrs.source_zone =? zone) || (p.attrs.dest_zone =? zone)) && is_in_force p.status

unfoldable pub count_by_zone : String → Exec ℕ
count_by_zone zone = db_query (λ w. ok (count_where (counts_for zone) w.rows.policies))
