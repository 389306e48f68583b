-- ===== src/Worker/Vpc.antt =====
-- The handlers of tasks/handlers.go for the steps of a VPC and of a subnet.
use vpc_workflow_demo.Decimal.{itoa, pos}
use vpc_workflow_demo.Prelude.{if◌then◌else◌, ◌=?◌, ◌+++◌, [], ◌∷◌}
use vpc_workflow_demo.Models.{Value}
use vpc_workflow_demo.World.{fail, Message, Exec}
use vpc_workflow_demo.Worker.Reply.{Context, publish_failure_reply}
use vpc_workflow_demo.Worker.Params.{
  VpcParams, SubnetParams, vpc_params, subnet_params, with_params, succeed,
}

unfoldable pub create_vrf : Context → Message → VpcParams → Exec (Unit {0})
create_vrf c msg p = succeed c msg (
    (
      "message",
      Value.text ("交换机上成功创建VRF: " +++ (p.vrf_name +++ (", 配置命令: ip vrf " +++ p.vrf_name))),
    )
    ∷ ("vrf_name", Value.text p.vrf_name)
    ∷ [])

unfoldable pub create_vrf_on_switch : Context → Message → Exec (Unit {0})
unfolding create_vrf
create_vrf_on_switch c msg = with_params vpc_params c (create_vrf c msg) msg

unfoldable pub create_vlan : Context → Message → VpcParams → Exec (Unit {0})
create_vlan c msg p =
    let vlan = itoa (pos p.vlan_id) in
    succeed c msg (
      (
        "message",
        Value.text (
            "交换机上成功创建VLAN子接口: VLAN "
            +++ (vlan
                +++ (", 接口配置: interface Vlan"
                    +++ (vlan +++ (", ip vrf forwarding " +++ p.vrf_name))))),
      )
      ∷ ("vlan_id", Value.number p.vlan_id)
      ∷ ("vrf_name", Value.text p.vrf_name)
      ∷ [])

unfoldable pub create_vlan_subinterface : Context → Message → Exec (Unit {0})
unfolding create_vlan
create_vlan_subinterface c msg = with_params vpc_params c (create_vlan c msg) msg

unfoldable pub create_zone : Context → Message → VpcParams → Exec (Unit {0})
create_zone c msg p = succeed c msg (
    (
      "message",
      Value.text (
          "防火墙上成功创建安全区域: "
          +++ (p.firewall_zone
              +++ (", 配置命令: security-zone name " +++ (p.firewall_zone +++ ", set priority 100")))),
    )
    ∷ ("firewall_zone", Value.text p.firewall_zone)
    ∷ [])

unfoldable pub create_firewall_zone : Context → Message → Exec (Unit {0})
unfolding create_zone
create_firewall_zone c msg = with_params vpc_params c (create_zone c msg) msg

-- The range that the handler takes for a conflict.
unfoldable pub create_subnet : Context → Message → SubnetParams → Exec (Unit {0})
create_subnet c msg p =
    if p.cidr =? "10.0.99.0/24"
    then publish_failure_reply c msg
        (fail ("CIDR冲突: " +++ (p.cidr +++ (" 在VPC " +++ (p.vpc_name +++ " 中已存在")))))
    else succeed c msg (
        ("message", Value.text ("交换机上成功创建子网: " +++ (p.subnet_name +++ (", CIDR: " +++ p.cidr))))
        ∷ ("subnet_name", Value.text p.subnet_name)
        ∷ ("cidr", Value.text p.cidr)
        ∷ [])

unfoldable pub create_subnet_on_switch : Context → Message → Exec (Unit {0})
unfolding create_subnet
create_subnet_on_switch c msg = with_params subnet_params c (create_subnet c msg) msg

unfoldable pub configure_routing : Context → Message → SubnetParams → Exec (Unit {0})
configure_routing c msg p = succeed c msg (
    ("message", Value.text ("成功配置子网路由: " +++ p.subnet_name))
    ∷ ("subnet_name", Value.text p.subnet_name)
    ∷ [])

unfoldable pub configure_subnet_routing : Context → Message → Exec (Unit {0})
unfolding configure_routing
configure_subnet_routing c msg = with_params subnet_params c (configure_routing c msg) msg
