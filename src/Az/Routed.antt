-- ===== src/Az/Routed.antt =====
-- The queues that internal/az/orchestrator/orchestrator.go publishes to, which internal/queue/queue.go names,
-- and those that the worker of a device consumes (`GetQueueConfig`, in cmd/worker/main.go).
use vpc_workflow_demo.Prelude.{ℕ, ◌≡◌, String, In}
use vpc_workflow_demo.Decimal.{ℤ}
use vpc_workflow_demo.Models.{Task}
use vpc_workflow_demo.Queue.{queue_config}
use vpc_workflow_demo.Queue.Routing.{weight, devices, routed, unshared}
use vpc_workflow_demo.Workflow.Manager.{step_message, new_manager, register_resource_store}
use vpc_workflow_demo.Az.Orchestrator.{AzOrchestrator, workflow_mgr}

-- The message that the manager of a zone publishes for a task of a device is in a queue that the worker of
-- this device consumes, with the weight of the task's priority, or that of the normal priority if it is
-- none of the four; and no worker of another device consumes that queue.
pub step_message-In-queue_config :
    (o : AzOrchestrator) (t : Task) (total : ℤ) (other : String) (n : ℕ)
    → In t.device_type devices
    → In other devices
    → ¬ (t.device_type ≡ other)
    → In
        ((step_message (workflow_mgr o) t total).queue, weight t.priority)
        (queue_config o.region o.az t.device_type)
      × ¬ In ((step_message (workflow_mgr o) t total).queue, n) (queue_config o.region o.az other)
unfolding step_message workflow_mgr new_manager register_resource_store
step_message-In-queue_config o t total other n known known' differ = (
  routed o.region o.az t.device_type t.priority,
  unshared o.region o.az t.device_type other t.priority n known known' differ,
)
