-- ===== src/Worker/Refused.antt =====
-- A step that a worker refuses, and the manager after it.
use vpc_workflow_demo.World.{Env, World, Err, IsFaultless, err, ReplyPayload, error_text}
use vpc_workflow_demo.Models.{Kind, Task, Row, Attrs, ResourceStatus}
use vpc_workflow_demo.Prelude.{
  String, ℕ, List, ◌=?◌, ◌≡◌, false, some, true, ◌++◌, ◌∷◌, [], find_where, ◌+◌, ◌∙◌, refl,
}
use vpc_workflow_demo.Decimal.{pos}
use vpc_workflow_demo.Workflow.Run.{InStep, IsKnown, context, reads, finds}
use vpc_workflow_demo.Workflow.Reply.{decode_reply}
use vpc_workflow_demo.Workflow.Manager.{Manager, step_message}
use vpc_workflow_demo.Workflow.Failure.{Fails, handle_reply-failed}
use vpc_workflow_demo.Workflow.Run.Completes.{last_of, last_of-append}
use vpc_workflow_demo.Dao.Table
use vpc_workflow_demo.Worker.Reply.{Context, retry_context, reply_message}
use vpc_workflow_demo.Worker.Table.{Handler, handler_for}
use vpc_workflow_demo.Worker.Answer.{replied, handler_failure}
use vpc_workflow_demo.Worker.Loop.{work, work_on, run_handler, manage, manage_on}

-- If the kind of the resource is registered, its id is not empty, the number of its steps fits an
-- int, the reply queue has a name and no call fails, and the worker's handler refuses the step that
-- is with the broker, after its last retry, then the manager that handles the worker's reply makes
-- the resource `failed` with the text of the handler's error: the row counts one more failed task,
-- and as many completed ones as before, and nothing is published beside the reply.
pub refused-failed :
    (m : Manager) (rid : String) (k : Kind) (total : ℕ) (c : Context) (e : Env) (done : List Task)
    (cur : Task) (rest : List Task) (row : Row (Attrs k)) (w : World) (h : Handler) (x : Err)
    → IsKnown m rid k total
    → (m.reply_queue_name =? "") ≡ false
    → IsFaultless e
    → InStep rid k total done cur rest row w
    → last_of w.published ≡ some (step_message m cur (pos total))
    → handler_for cur.device_type cur.task_type ≡ some h
    → (h c (step_message m cur (pos total)) e w).0 ≡ err x
    → (retry_context c).final_failure ≡ true
    → (r : ReplyPayload) × ((manage m e (work c cur.device_type e w).1).1.published
        ≡ w.published ++ reply_message (step_message m cur (pos total)) m.reply_queue_name r ∷ [])
      × ((after : Row (Attrs k)) × (find_where
              (Table.has_id rid)
              (Table.table k (manage m e (work c cur.device_type e w).1).1)
            ≡ some after)
          × (after.status ≡ ResourceStatus.failed)
          × (after.error_message ≡ error_text x)
          × (after.failed_tasks ≡ row.failed_tasks + 1)
          × (after.completed_tasks ≡ row.completed_tasks))
unfolding work work_on run_handler manage manage_on step_message reply_message decode_reply
    Table.table
refused-failed m rid k total c e done cur rest row w h x known named calm s l found broken final =
    let msg = step_message m cur (pos total) in
    let (r, failed, text, last, worked) =
      handler_failure e calm c cur.device_type cur.task_type h msg m.reply_queue_name
        (context rid k total done) found refl named
        (reads m rid k total known done cur rest row w s) w x broken in
    let w' = replied msg m.reply_queue_name r w in
    let fails : Fails m (reply_message msg m.reply_queue_name r) w' (context rid k total done) k cur
        r =
      record {
        payload = refl;
        context = reads m rid k total known done cur rest row w s;
        known = known.known;
        found = finds m rid k total known done cur rest row w s;
        fresh = s.fresh;
        failed = failed;
        final = last ∙ final;
      } in
    let (fine, quiet, (after, at, status, error, more, same), again) =
      handle_reply-failed m (reply_message msg m.reply_queue_name r) w' (context rid k total done) k
        cur r row e e calm fails s.found_row in
    rw (l, found, worked, last_of-append w.published (reply_message msg m.reply_queue_name r))
      (r, quiet, (after, at, status, error ∙ text, more, same))
