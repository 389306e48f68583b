-- ===== src/Worker/Loop.antt =====
-- Workers and the manager together: each message is run by the worker of its device, and the reply
-- that the worker publishes is handled by the manager.
use vpc_workflow_demo.Decimal.{pos}
use vpc_workflow_demo.Prelude.{
  ◌≡◌, refl, Option, none, some, String, ◌=?◌, List, [], ◌∷◌, ◌++◌, ℕ, All, false, map, ◌+◌, length,
  ◌∙◌,
}
use vpc_workflow_demo.Models.{Kind, Row, Attrs, Task}
use vpc_workflow_demo.World.{
  Message, ReplyPayload, ReplyStatus, Env, World, IsFaultless, ok, raise, external, pure, Exec,
  ◌>>=◌,
}
use vpc_workflow_demo.Dao.Table
use vpc_workflow_demo.Dao.Tasks
use vpc_workflow_demo.Workflow.Manager.{StepContext, metadata_context, Manager, step_message}
use vpc_workflow_demo.Workflow.Reply.{handle_reply}
use vpc_workflow_demo.Workflow.Advance.{finished, advanced}
use vpc_workflow_demo.Workflow.Run.{InStep, IsKnown, answer_of, context, reads}
use vpc_workflow_demo.Workflow.Run.Step.{completing, queueing, advanced-InStep}
use vpc_workflow_demo.Workflow.Run.Completes.{
  last_of, last_of-append, HasRun, finished-HasRun, HasRun-shift, last_answered, next_answered,
}
use vpc_workflow_demo.Worker.Reply.{Context, reply_message}
use vpc_workflow_demo.Worker.Table.{Handler, handler_for}
use vpc_workflow_demo.Worker.Answer.{replied, handler_success}

unfoldable pub run_handler : Context → Message → Option Handler → Exec (Unit {0})
run_handler c msg none = raise (external "handler not found for task")
run_handler c msg (some h) = h c msg

unfoldable pub work_on : Context → String → Option Message → Exec (Unit {0})
unfolding run_handler
work_on c device none = pure tt
work_on c device (some msg) = run_handler c msg (handler_for device msg.task_type)

-- The worker of a device takes the message published last.
unfoldable pub work : Context → String → Exec (Unit {0})
unfolding work_on
work c device e w = work_on c device (last_of w.published) e w

unfoldable pub manage_on : Manager → Option Message → Exec (Unit {0})
manage_on m none = pure tt
manage_on m (some msg) = handle_reply m (some msg)

-- The manager takes the message published last.
unfoldable pub manage : Manager → Exec (Unit {0})
unfolding manage_on
manage m e w = manage_on m (last_of w.published) e w

-- A worker and the manager take turns, once for each device of the list.
unfoldable pub rounds : Manager → Context → List String → Exec (Unit {0})
unfolding work manage
rounds m c [] = pure tt
rounds m c (d ∷ ds) = let rest = rounds m c ds in work c d >>= λ _. manage m >>= λ _. rest

-- The worker of the device has a handler for the message, which answers no error if the manager can
-- read the metadata of the message.
pub record HasWorker (c : Context) (e : Env) (device : String) (msg : Message) : Type 0 where
  pub handler : Handler
  pub found : handler_for device msg.task_type ≡ some handler
  pub fine :
      (s : StepContext) (w : World)
      → metadata_context msg.metadata ≡ ok s
      → (handler c msg e w).0 ≡ ok tt

handle_reply-reply_message :
    (m : Manager) (msg : Message) (queue : String) (r : ReplyPayload) (e : Env) (w : World)
    → handle_reply m (some (reply_message msg queue r)) e w
      ≡ handle_reply m (some (answer_of msg r)) e w
unfolding handle_reply reply_message answer_of
handle_reply-reply_message m msg queue r e w = refl

module _ (m : Manager) (rid : String) (k : Kind) (total : ℕ) (known : IsKnown m rid k total)
    (routed : (d : String) (p : ℕ) → (m.queue_resolver d p =? "") ≡ false)
    (answered : (m.reply_queue_name =? "") ≡ false) (c : Context) (e : Env)
    (calm : IsFaultless e) where
  InStep-replied :
      (done : List Task) (cur : Task) (rest : List Task) (row : Row (Attrs k)) (w : World)
      (msg : Message) (queue : String) (r : ReplyPayload)
      → InStep rid k total done cur rest row w
      → InStep rid k total done cur rest row (replied msg queue r w)
  unfolding Table.table
  InStep-replied done cur rest row w msg queue r s = record {
    steps = s.steps;
    unique = s.unique;
    completed = s.completed;
    fresh = s.fresh;
    waiting = s.waiting;
    numbered = s.numbered;
    size = s.size;
    owned = s.owned;
    found_row = s.found_row;
  }

  -- What a worker without an error publishes.
  worker_reply :
      (done : List Task) (cur : Task) (rest : List Task) (row : Row (Attrs k)) (w : World)
      → InStep rid k total done cur rest row w
      → last_of w.published ≡ some (step_message m cur (pos total))
      → HasWorker c e cur.device_type (step_message m cur (pos total))
      → (r : ReplyPayload) × (r.status ≡ ReplyStatus.success)
        × (work c cur.device_type e w
            ≡ (ok tt, replied (step_message m cur (pos total)) m.reply_queue_name r w))
  unfolding work work_on run_handler step_message
  worker_reply done cur rest row w s l h =
      let msg = step_message m cur (pos total) in
      let known_step = reads m rid k total known done cur rest row w s in
      let a =
        handler_success e calm c cur.device_type msg.task_type h.handler msg m.reply_queue_name
          (context rid k total done) h.found refl answered known_step w
          (h.fine (context rid k total done) w known_step) in
      (a.0, a.1, rw (l, h.found) a.2)

  manager_next :
      (done : List Task) (cur next : Task) (rest : List Task) (row : Row (Attrs k)) (w : World)
      (r : ReplyPayload)
      → InStep rid k total done cur (next ∷ rest) row w
      → r.status ≡ ReplyStatus.success
      → manage m e (replied (step_message m cur (pos total)) m.reply_queue_name r w) ≡ (
        ok tt,
        advanced e
            (context rid k total done)
            k
            cur
            r
            m
            next
            (replied (step_message m cur (pos total)) m.reply_queue_name r w),
      )
  unfolding manage manage_on
  manager_next done cur next rest row w r s good =
      let msg = step_message m cur (pos total) in
      let w' = replied msg m.reply_queue_name r w in
      rw (last_of-append w.published (reply_message msg m.reply_queue_name r)) (
        handle_reply-reply_message m msg m.reply_queue_name r e w'
        ∙ next_answered m rid k total known routed e calm done cur next rest row w' r
            (InStep-replied done cur (next ∷ rest) row w msg m.reply_queue_name r s) good)

  manager_last :
      (done : List Task) (cur : Task) (row : Row (Attrs k)) (w : World) (r : ReplyPayload)
      → InStep rid k total done cur [] row w
      → r.status ≡ ReplyStatus.success
      → manage m e (replied (step_message m cur (pos total)) m.reply_queue_name r w) ≡ (
        ok tt,
        finished e
            (context rid k total done)
            k
            cur
            r
            (replied (step_message m cur (pos total)) m.reply_queue_name r w),
      )
  unfolding manage manage_on
  manager_last done cur row w r s good =
      let msg = step_message m cur (pos total) in
      let w' = replied msg m.reply_queue_name r w in
      rw (last_of-append w.published (reply_message msg m.reply_queue_name r)) (
        handle_reply-reply_message m msg m.reply_queue_name r e w'
        ∙ last_answered m rid k total known routed e calm done cur row w' r
            (InStep-replied done cur [] row w msg m.reply_queue_name r s) good)

  -- If the kind of the resource is registered, its id is not empty, the number of its steps fits an
  -- int, no queue name is empty and no call fails, and the worker of each open step's device has a
  -- handler that runs its message without an error, then a resource whose first open step is with
  -- the broker, its message published last, is run to the end by the workers of those devices, in
  -- order, each followed by the manager: no error is answered, all steps are completed, and the row
  -- is `running` and has counted every one of them.
  pub rounds-HasRun :
      (done : List Task) (cur : Task) (rest : List Task) (row : Row (Attrs k)) (w : World)
      → InStep rid k total done cur rest row w
      → last_of w.published ≡ some (step_message m cur (pos total))
      → All (λ t. HasWorker c e t.device_type (step_message m t (pos total))) (cur ∷ rest)
      → ((rounds m c (map (λ t. t.device_type) (cur ∷ rest)) e w).0 ≡ ok tt)
        × HasRun rid k
            (length (cur ∷ rest))
            row
            (rounds m c (map (λ t. t.device_type) (cur ∷ rest)) e w).1
  unfolding rounds pure Tasks.update_task Table.update_row Table.set_rows Tasks.set_queued
      step_message
  rounds-HasRun done cur [] row w s l h =
      let (r, good, worked) = worker_reply done cur [] row w s l h.0 in
      let msg = step_message m cur (pos total) in
      let w' = replied msg m.reply_queue_name r w in
      rw (worked, manager_last done cur row w r s good)
        (
          refl,
          finished-HasRun m rid k total known routed e calm done cur row w' r
              (InStep-replied done cur [] row w msg m.reply_queue_name r s),
        )
  rounds-HasRun done cur (next ∷ rest) row w s l h =
      let (r, good, worked) = worker_reply done cur (next ∷ rest) row w s l h.0 in
      let msg = step_message m cur (pos total) in
      let w1 = replied msg m.reply_queue_name r w in
      let s1 = InStep-replied done cur (next ∷ rest) row w msg m.reply_queue_name r s in
      let w' = advanced e (context rid k total done) k cur r m next w1 in
      let next_row = Table.add_completed (e.clock (w1.calls + 1 + 1)) row in
      let (fine, run) =
        rounds-HasRun (done ++ completing e w1 cur r cur ∷ []) (queueing e w1 cur r next) rest
          next_row w' (advanced-InStep e w1 cur r rid k total done next rest row s1 m)
          (last_of-append w1.published (step_message m next (pos total))) h.1 in
      rw (worked, manager_next done cur next rest row w r s good)
        (
          fine,
          HasRun-shift m rid k total known routed e calm (e.clock (w1.calls + 1 + 1))
              (length (next ∷ rest)) row _ run,
        )
