-- ===== src/Workflow/Metadata.antt =====
-- The metadata of a message against `metadataContext` of internal/orchestration/workflow.go.
use vpc_workflow_demo.Prelude.{ℕ, ◌≡◌, ◌≤◌, ◌=?◌, false, ◌-◌, arith, suc, ap, zero, some}
use vpc_workflow_demo.Decimal.{pos, max_int, int_pred, atoi, itoa}
use vpc_workflow_demo.Decimal.RoundTrip.{atoi-itoa_pos}
use vpc_workflow_demo.Models.{Task}
use vpc_workflow_demo.World.{ok}
use vpc_workflow_demo.Workflow.Manager.{
  Manager, StepContext, step_message, metadata_context, lookup, read_steps,
}

-- The context of the step that a task stands for.
abbrev pub context_of : Task → ℕ → StepContext
context_of t total = record {
  resource_type = t.resource_type;
  resource_id = t.resource_id;
  step_index = pos (t.task_order - 1);
  total_steps = pos total;
}

pub int_pred_pos : (n : ℕ) → 1 ≤ n → int_pred (pos n) ≡ pos (n - 1)
unfolding int_pred
int_pred_pos zero h = absurd (omega arith)
int_pred_pos (suc n) h = ap pos (omega arith)

-- For a task with a resource id and a resource type that are not empty, and an order from 1 on,
-- reading the metadata of the message that is published for it gives its resource, the index of
-- its step, and the number of steps, if both numbers fit a machine integer.
pub metadata_context-step_message :
    (m : Manager) (t : Task) (total : ℕ)
    → (t.resource_id =? "") ≡ false
    → (t.resource_type =? "") ≡ false
    → 1 ≤ t.task_order
    → t.task_order ≤ max_int
    → total ≤ max_int
    → metadata_context (step_message m t (pos total)).metadata ≡ ok (context_of t total)
unfolding metadata_context step_message lookup read_steps
metadata_context-step_message m t total a b c d f =
    let index : atoi (itoa (int_pred (pos t.task_order))) ≡ some (pos (t.task_order - 1)) =
      rw (int_pred_pos t.task_order c) (atoi-itoa_pos (t.task_order - 1) (omega (arith, d))) in
    rw (a, b, index, atoi-itoa_pos total f)
