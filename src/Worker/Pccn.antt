-- ===== src/Worker/Pccn.antt =====
-- The handlers of tasks/pccn_handlers.go.
use vpc_workflow_demo.Prelude.{String, Bool, not, if◌then◌else◌, ◌=?◌, ◌+++◌, [], ◌∷◌, map}
use vpc_workflow_demo.Models.{Value}
use vpc_workflow_demo.World.{Message, Exec}
use vpc_workflow_demo.Worker.Reply.{Context}
use vpc_workflow_demo.Worker.Params.{PccnParams, pccn_params, with_params, succeed}

abbrev is_cross_region : PccnParams → Bool
is_cross_region p = not (p.vpc_region =? p.peer_vpc_region)

connection_command : PccnParams → String
connection_command p =
    "pccn connection create --local-vpc "
    +++ (p.vpc_name
        +++ (" --peer-vpc "
            +++ (p.peer_vpc_name
                +++ (" --cross-region " +++ (if is_cross_region p then "true" else "false")))))

unfoldable pub create_connection : Context → Message → PccnParams → Exec (Unit {0})
unfolding connection_command
create_connection c msg p = succeed c msg (
    (
      "message",
      Value.text (
          "PCCN连接创建成功: "
          +++ (p.vpc_name
              +++ ("("
                  +++ (p.vpc_region
                      +++ (") <-> "
                          +++ (p.peer_vpc_name +++ ("(" +++ (p.peer_vpc_region +++ ")")))))))),
    )
    ∷ ("pccn_id", Value.text p.pccn_id)
    ∷ ("pccn_name", Value.text p.pccn_name)
    ∷ ("vpc_name", Value.text p.vpc_name)
    ∷ ("vpc_region", Value.text p.vpc_region)
    ∷ ("peer_vpc_name", Value.text p.peer_vpc_name)
    ∷ ("peer_vpc_region", Value.text p.peer_vpc_region)
    ∷ ("vpc_subnets", Value.texts p.subnets)
    ∷ ("is_cross_region", Value.flag (is_cross_region p))
    ∷ ("config_cmd", Value.text (connection_command p))
    ∷ [])

unfoldable pub create_pccn_connection : Context → Message → Exec (Unit {0})
unfolding create_connection
create_pccn_connection c msg = with_params pccn_params c (create_connection c msg) msg

unfoldable pub configure_routes : Context → Message → PccnParams → Exec (Unit {0})
configure_routes c msg p =
    let routing_type = if is_cross_region p then "cross-region" else "intra-region" in
    let routing_cmds =
      map (λ (s : String). "ip route add " +++ (s +++ (" via pccn-gateway-" +++ p.pccn_name)))
        p.subnets in
    succeed c msg (
      ("message", Value.text ("PCCN路由配置成功: " +++ p.pccn_name))
      ∷ ("pccn_name", Value.text p.pccn_name)
      ∷ ("vpc_name", Value.text p.vpc_name)
      ∷ ("vpc_region", Value.text p.vpc_region)
      ∷ ("peer_vpc_name", Value.text p.peer_vpc_name)
      ∷ ("peer_vpc_region", Value.text p.peer_vpc_region)
      ∷ ("routing_type", Value.text routing_type)
      ∷ ("routing_cmds", Value.texts routing_cmds)
      ∷ [])

unfoldable pub configure_pccn_routing : Context → Message → Exec (Unit {0})
unfolding configure_routes
configure_pccn_routing c msg = with_params pccn_params c (configure_routes c msg) msg

unfoldable pub delete_connection : Context → Message → PccnParams → Exec (Unit {0})
delete_connection c msg p = succeed c msg (
    ("message", Value.text ("PCCN连接删除成功: " +++ p.pccn_name))
    ∷ ("pccn_name", Value.text p.pccn_name)
    ∷ [])

unfoldable pub delete_pccn_connection : Context → Message → Exec (Unit {0})
unfolding delete_connection
delete_pccn_connection c msg = with_params pccn_params c (delete_connection c msg) msg
