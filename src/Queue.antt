-- ===== src/Queue.antt =====
-- internal/queue/queue.go: the names of the queues.
pub mod Routing
use vpc_workflow_demo.Prelude.{
  ℕ, String, List, if◌then◌else◌, ◌+++◌, ◌++◌, ◌∷◌, ◌=?◌, ◌==◌, [], ◌||◌,
}

abbrev pub device_type_switch : String
device_type_switch = "switch"

abbrev pub device_type_load_balancer : String
device_type_load_balancer = "loadbalancer"

abbrev pub device_type_firewall : String
device_type_firewall = "firewall"

abbrev pub priority_low : ℕ
priority_low = 1

abbrev pub priority_normal : ℕ
priority_normal = 3

abbrev pub priority_high : ℕ
priority_high = 6

abbrev pub priority_critical : ℕ
priority_critical = 9

unfoldable pub queue_name : String → String → String → String
queue_name region az device_type =
    "tasks:" +++ (region +++ (":" +++ (az +++ (":" +++ device_type))))

abbrev pub priority_suffix : ℕ → String
priority_suffix priority =
    if priority == priority_critical
    then "_critical"
    else if priority == priority_high
    then "_high"
    else if priority == priority_low
    then "_low"
    else ""

unfoldable pub priority_queue_name : String → String → String → ℕ → String
priority_queue_name region az device_type priority =
    "tasks:"
    +++ (region +++ (":" +++ (az +++ (":" +++ (device_type +++ priority_suffix priority)))))

unfoldable pub reply_queue_name : String → String → String → String
reply_queue_name region az service =
    "replies:" +++ (region +++ (":" +++ (az +++ (":" +++ service))))

-- The queues of a device and their weights, in the order of the literal.
unfoldable pub queue_config : String → String → String → List (String × ℕ)
unfolding queue_name
queue_config region az device_type =
    let base = queue_name region az device_type in
    (base +++ "_critical", priority_critical)
    ∷ (base +++ "_high", priority_high)
    ∷ (base, priority_normal)
    ∷ (base +++ "_low", priority_low)
    ∷ []

-- Nothing in the program calls it: a worker consumes `GetQueueConfig` of its device.
unfoldable pub all_queues_config : String → String → List (String × ℕ)
unfolding queue_config
all_queues_config region az =
    queue_config region az device_type_switch
    ++ (queue_config region az device_type_firewall
        ++ queue_config region az device_type_load_balancer)

-- Nothing in the program calls it: a task is published to the device of its step.
unfoldable pub device_type_for_task_type : String → String
device_type_for_task_type t =
    if (t =? "create_firewall_zone") || (t =? "delete_firewall_zone")
    then device_type_firewall
    else if (t =? "create_lb_pool") || ((t =? "delete_lb_pool") || (t =? "configure_lb_listener"))
    then device_type_load_balancer
    else device_type_switch
