-- ===== src/Worker/Other.antt =====
-- The handlers of tasks/handlers.go for load balancers and for firewall policies.
use vpc_workflow_demo.Prelude.{String, if◌then◌else◌, ◌=?◌, ◌+++◌, [], ◌∷◌}
use vpc_workflow_demo.Models.{Value}
use vpc_workflow_demo.World.{Message, Exec}
use vpc_workflow_demo.Worker.Reply.{Context}
use vpc_workflow_demo.Worker.Params.{
  LbParams, FirewallPolicyParams, lb_params, firewall_policy_params, with_params, succeed,
}

abbrev or_default : String → String → String
or_default d s = if s =? "" then d else s

unfoldable pub create_pool : Context → Message → LbParams → Exec (Unit {0})
create_pool c msg p =
    let name = or_default "default-pool" p.pool_name in
    succeed c msg
      (("message", Value.text ("负载均衡器上成功创建Pool: " +++ name)) ∷ ("pool_name", Value.text name) ∷ [])

unfoldable pub create_lb_pool : Context → Message → Exec (Unit {0})
unfolding create_pool
create_lb_pool c msg = with_params lb_params c (create_pool c msg) msg

unfoldable pub configure_listener : Context → Message → LbParams → Exec (Unit {0})
configure_listener c msg p =
    let name = or_default "default-listener" p.listener_name in
    succeed c msg (
      ("message", Value.text ("负载均衡器上成功配置Listener: " +++ name))
      ∷ ("listener_name", Value.text name)
      ∷ [])

unfoldable pub configure_lb_listener : Context → Message → Exec (Unit {0})
unfolding configure_listener
configure_lb_listener c msg = with_params lb_params c (configure_listener c msg) msg

policy_command : FirewallPolicyParams → String
policy_command p =
    "\nsecurity-policy\n rule name "
    +++ (p.policy_name
        +++ ("\n  source-zone "
            +++ (p.source_zone
                +++ ("\n  destination-zone "
                    +++ (p.dest_zone
                        +++ ("\n  source-address "
                            +++ (p.source_ip
                                +++ ("\n  destination-address "
                                    +++ (p.dest_ip
                                        +++ ("\n  destination-port "
                                            +++ (p.dest_port
                                                +++ ("\n  protocol "
                                                    +++ (p.protocol
                                                        +++ ("\n  action "
                                                            +++ (p.action +++ "\n")))))))))))))))

unfoldable pub create_policy : Context → Message → FirewallPolicyParams → Exec (Unit {0})
unfolding policy_command
create_policy c msg p = succeed c msg (
    ("message", Value.text ("防火墙策略创建成功: " +++ p.policy_name))
    ∷ ("policy_name", Value.text p.policy_name)
    ∷ ("source_zone", Value.text p.source_zone)
    ∷ ("dest_zone", Value.text p.dest_zone)
    ∷ ("config_cmd", Value.text (policy_command p))
    ∷ [])

unfoldable pub create_firewall_policy : Context → Message → Exec (Unit {0})
unfolding create_policy
create_firewall_policy c msg = with_params firewall_policy_params c (create_policy c msg) msg
