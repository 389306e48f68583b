-- ===== src/Worker/Table.antt =====
-- The handlers that cmd/worker/main.go registers for the device of the worker.
use vpc_workflow_demo.Prelude.{String, Option, none, some, List, [], ◌∷◌, if◌then◌else◌, ◌=?◌}
use vpc_workflow_demo.World.{Message, Exec}
use vpc_workflow_demo.Queue.{device_type_switch, device_type_firewall, device_type_load_balancer}
use vpc_workflow_demo.Worker.Reply.{Context}
use vpc_workflow_demo.Worker.Vpc.{
  create_vrf_on_switch, create_vlan_subinterface, create_firewall_zone, create_subnet_on_switch,
  configure_subnet_routing,
}
use vpc_workflow_demo.Worker.Other.{create_lb_pool, configure_lb_listener, create_firewall_policy}
use vpc_workflow_demo.Worker.Pccn.{create_pccn_connection, configure_pccn_routing}

abbrev pub Handler : Type 0
Handler = Context → Message → Exec (Unit {0})

unfoldable pub registered : String → List (String × Handler)
registered device_type =
    if device_type =? device_type_switch
    then ("create_vrf_on_switch", create_vrf_on_switch)
      ∷ ("create_vlan_subinterface", create_vlan_subinterface)
      ∷ ("create_subnet_on_switch", create_subnet_on_switch)
      ∷ ("configure_subnet_routing", configure_subnet_routing)
      ∷ ("create_pccn_connection", create_pccn_connection)
      ∷ ("configure_pccn_routing", configure_pccn_routing)
      ∷ []
    else if device_type =? device_type_firewall
    then ("create_firewall_zone", create_firewall_zone)
      ∷ ("create_firewall_policy", create_firewall_policy)
      ∷ []
    else if device_type =? device_type_load_balancer
    then ("create_lb_pool", create_lb_pool) ∷ ("configure_lb_listener", configure_lb_listener) ∷ []
    else []

unfoldable pub find_handler : String → List (String × Handler) → Option Handler
find_handler task_type [] = none
find_handler task_type ((k, h) ∷ l) =
    let rest = find_handler task_type l in if k =? task_type then some h else rest

unfoldable pub handler_for : String → String → Option Handler
unfolding registered find_handler
handler_for device_type task_type = find_handler task_type (registered device_type)
