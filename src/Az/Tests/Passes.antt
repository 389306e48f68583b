-- ===== src/Az/Tests/Passes.antt =====
-- Passes of the compensation loop over a VPC whose workflow has failed.
use vpc_workflow_demo.Prelude.{refl, All}
use vpc_workflow_demo.Models.{ResourceStatus, TaskStatus, Kind, vpc, subnet, pccn, firewall_policy}
use vpc_workflow_demo.World.{World}
use vpc_workflow_demo.Dao.Table
use vpc_workflow_demo.Az.Compensation.{compensation_ticks}
use vpc_workflow_demo.Az.Compensated.{HasStatus, RowStatus, compensation_ticks-HasStatus}
use vpc_workflow_demo.Az.Tests.{zone, env, at, vpc_in}

abbrev broken : World
broken = at (vpc_in ResourceStatus.failed 1 1) TaskStatus.completed TaskStatus.failed

broken-HasStatus : HasStatus "shop-id" ResourceStatus.failed broken
unfolding Table.table
broken-HasStatus = record { in_tables = rows }
  where
    rows : (k : Kind) → All (RowStatus "shop-id" ResourceStatus.failed k) (Table.table k broken)
    rows vpc = ((λ _. refl), tt)
    rows subnet = tt
    rows pccn = tt
    rows firewall_policy = tt

compensation_ticks-HasStatus_example :
    HasStatus "shop-id" ResourceStatus.failed (compensation_ticks zone 3 env broken).1
compensation_ticks-HasStatus_example =
    compensation_ticks-HasStatus zone 3 "shop-id" ResourceStatus.failed env broken refl
      broken-HasStatus
