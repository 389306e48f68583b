-- ===== src/Top/PccnWatch/Forgotten.antt =====
-- A zone that fails before another one has settled, in the polls of
-- internal/top/orchestrator/orchestrator.go for a PCCN.
use vpc_workflow_demo.Prelude.{
  ◌≡◌, ◌∙◌, refl, String, true, false, some, List, [], ◌∷◌, ◌+◌, ◌=?◌, find_where, update_where,
  find_where-update_where, text_eq_refl,
}
use vpc_workflow_demo.Models.{ResourceStatus, VpcRef}
use vpc_workflow_demo.World.{ok}
use vpc_workflow_demo.Top.World.{
  Top, TopEnv, IsCalm, Az, Event, PccnRegistry, ZoneStatus, asked, ignore, pure, db_exec,
  exec_unless,
}
use vpc_workflow_demo.Top.Pccn.{named, set_status, update_pccn_status}
use vpc_workflow_demo.Top.PccnWatch.{
  poll_pccn_az_worker_statuses, ask_zones, zone_answer, save_end, running_details,
}

-- If no statement fails, and at the first tick one of two zones has failed while the other still
-- creates the connection, and at the second tick the other one runs, then the polls end with the status
-- `running` for the PCCN and for both VPCs.
pub poll_pccn_az_worker_statuses-forgotten :
    (es : List Event) (name : String) (a b : Az) (vpc1 vpc2 : VpcRef) (e : TopEnv) (w : Top)
    (p : PccnRegistry) (s t u : ZoneStatus)
    → IsCalm e
    → (a.id =? b.id) ≡ false
    → find_where (named name) w.pccns ≡ some p
    → e.pccn_status w.calls a.nsp_addr name ≡ ok s
    → s.status ≡ ResourceStatus.failed
    → e.pccn_status (w.calls + 1) b.nsp_addr name ≡ ok t
    → t.status ≡ ResourceStatus.creating
    → e.pccn_status (w.calls + 1 + 1) b.nsp_addr name ≡ ok u
    → u.status ≡ ResourceStatus.running
    → ((poll_pccn_az_worker_statuses
          (Event.ticked ∷ Event.ticked ∷ es)
          name
          (a ∷ b ∷ [])
          vpc1
          vpc2
          []
          e
          w).0
        ≡ ok true)
      × ((x : PccnRegistry) × (find_where
              (named name)
              (poll_pccn_az_worker_statuses
                (Event.ticked ∷ Event.ticked ∷ es)
                name
                (a ∷ b ∷ [])
                vpc1
                vpc2
                []
                e
                w).1.pccns
            ≡ some x)
          × (x.status ≡ "running")
          × (x.vpc_details ≡ running_details vpc1 vpc2))
unfolding poll_pccn_az_worker_statuses ask_zones zone_answer save_end update_pccn_status set_status
    asked ignore pure db_exec exec_unless
poll_pccn_az_worker_statuses-forgotten es name a b vpc1 vpc2 e w p s t u calm differ found sa failed
      tb busy ub good =
    let written =
      set_status (e.clock (w.calls + 1 + 1 + 1)) "running" (running_details vpc1 vpc2) in
    let row : find_where (named name) (update_where (named name) written w.pccns)
        ≡ some (written p) =
      find_where-update_where (named name) (named name) written (λ x i. named name x) w.pccns
      ∙ rw found refl in
    rw (sa, failed, differ, tb, busy, text_eq_refl a.id, differ, ub, good, calm.no_fault)
      (refl, (written p, row, refl, refl))
