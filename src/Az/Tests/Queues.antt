-- ===== src/Az/Tests/Queues.antt =====
-- The queue of the first step of a VPC.
use vpc_workflow_demo.Prelude.{refl, inl, inr, In, false≢true, text_eq_iff}
use vpc_workflow_demo.Decimal.{pos}
use vpc_workflow_demo.Models.{TaskStatus}
use vpc_workflow_demo.Queue.{queue_config}
use vpc_workflow_demo.Workflow.Manager.{step_message}
use vpc_workflow_demo.Az.Orchestrator.{workflow_mgr}
use vpc_workflow_demo.Az.Routed.{step_message-In-queue_config}
use vpc_workflow_demo.Az.Tests.{zone, step_task}

step_message-In-queue_config_example :
    In
      ((step_message (workflow_mgr zone) (step_task "t1" 1 TaskStatus.pending) (pos 2)).queue, 3)
      (queue_config "cn" "a" "switch")
    × ¬ In
        ((step_message (workflow_mgr zone) (step_task "t1" 1 TaskStatus.pending) (pos 2)).queue, 3)
        (queue_config "cn" "a" "firewall")
step_message-In-queue_config_example =
    step_message-In-queue_config zone (step_task "t1" 1 TaskStatus.pending) (pos 2) "firewall" 3
      (inl refl) (inr (inl refl)) (λ h. false≢true ((text_eq_iff "switch" "firewall").1 h))
