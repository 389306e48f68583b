-- ===== src/Top/Status.antt =====
-- `computeOverallStatus` of internal/top/orchestrator/orchestrator.go.
pub mod Spec
pub mod Order
use vpc_workflow_demo.Prelude.{
  String, Bool, true, false, List, [], ◌∷◌, if◌then◌else◌, ◌=?◌, ◌||◌, ◌&&◌,
}
use vpc_workflow_demo.Top.World.{AzDetail}

-- The flags that the first loop sets.
pub record Flags : Type 0 where
  pub has_failed : Bool
  pub has_creating : Bool
  pub has_interrupted : Bool
  pub all_running : Bool

unfoldable pub note_status : String → Flags → Flags
note_status s f =
    if s =? "running"
    then f
    else if s =? "failed"
    then record f { has_failed = true; all_running = false }
    else if s =? "creating"
    then record f { has_creating = true; all_running = false }
    else if s =? "interrupted"
    then record f { has_interrupted = true; all_running = false }
    else record f { all_running = false }

unfoldable pub note_all : List (String × AzDetail) → Flags → Flags
unfolding note_status
note_all [] f = f
note_all ((az, d) ∷ ds) f = note_all ds (note_status d.status f)

unfoldable pub has_running : List (String × AzDetail) → Bool
has_running [] = false
has_running ((az, d) ∷ ds) =
    let rest = has_running ds in if d.status =? "running" then true else rest

unfoldable pub overall_of : Bool → Flags → String
overall_of some_running f =
    if f.all_running
    then "running"
    else if f.has_failed
    then (if some_running then "partial_running" else "failed")
    else if f.has_interrupted
    then "interrupted"
    else if f.has_creating
    then "creating"
    else "failed"

-- The map is read in an order that Go leaves open: here the order of the list.
unfoldable pub compute_overall_status : List (String × AzDetail) → String
unfolding overall_of has_running note_all
compute_overall_status ds = overall_of (has_running ds) (
    note_all ds (record {
      has_failed = false;
      has_creating = false;
      has_interrupted = false;
      all_running = true;
    }))
