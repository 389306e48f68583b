-- ===== src/Workflow/Counters/Replies.antt =====
-- `HandleReply` keeps the invariant of the counters, whichever calls fail.
use vpc_workflow_demo.Decimal.{ℤ, int_succ, int_eq, int_pred}
use vpc_workflow_demo.World.{
  World, ReplyPayload, Message, ok, db_exec, pure, tick, Env, ReplyStatus, Result, err,
}
use vpc_workflow_demo.Prelude.{
  String, Option, ℕ, some, In, ◌≡◌, first, true, false, order_by, not, none, select, ◌=?◌,
  In-select, arith, In-order_by, In-first, In-find_where, Option-cases, Bool-cases, inl, inr,
}
use vpc_workflow_demo.Models.{
  Task, Kind, is_completed, Row, is_pending, is_settled, Attrs, TaskStatus,
}
use vpc_workflow_demo.Dao.Tasks
use vpc_workflow_demo.Dao.Table
use vpc_workflow_demo.World.Hoare.{
  Triple, Keeps, IsStable, Keeps-exec, Keeps-raise, Triple-bind, Triple-pure, Triple-raise,
  Triple-or_wrap, Triple-if, Triple-exec, Triple-query, Keeps-world, Triple-from,
}
use vpc_workflow_demo.Workflow.Manager.{
  Manager, enqueue, StepContext, publish_task, broker_publish, metadata_context, resource_store,
}
use vpc_workflow_demo.Workflow.Reply.{
  lift, decode_reply, on_failure, on_success, on_status, with_store, handle_reply, publish_next,
}
use vpc_workflow_demo.Workflow.Counters.{
  IsBacked, Counted, CountedPlus, Found, Counted-stable, CountedPlus-stable,
  Counted-from-CountedPlus, Counted-write, Counted-update_row, Counted-add_completed,
  Counted-complete,
}

-- A task of the table that is not completed.
record Open (t : Task) (w : World) : Type 0 where
  here : In t w.tasks
  counted : Counted w

Open-stable : (t : Task) → IsStable (Open t)
Open-stable t = record {
  stable = λ w h. record { here = h.here; counted = Counted-stable.stable w h.counted };
}

broker_publish-Open :
    (t : Task) (msg : Message) → Triple (Open t) (broker_publish msg) (λ _. Open t) Counted
unfolding broker_publish Table.table
broker_publish-Open t msg = record {
  at = λ e w h.
      (Triple-bind {P = Open t} (db_exec (λ _. enqueue msg)) (λ _. pure (e.broker_id w.calls))
          (Triple-exec {Q = λ _. Open t} _
            (λ now w' h'. record {
              here = h'.here;
              counted = record { unique = h'.counted.unique; all_rows = h'.counted.all_rows };
            })
            (λ w' h'. Counted-stable.stable w' h'.counted))
          (λ _. Triple-pure _ (λ w' h'. h'))).at
        e w h;
}

module _ (t : Task) (fresh : is_completed t.status ≡ false) where
  -- Any write to the task, other than of its ids.
  write-Counted :
      (f : ℕ → Task → Task)
      → ((now : ℕ) (x : Task) → (f now x).id ≡ x.id)
      → ((now : ℕ) (x : Task) → (f now x).resource_id ≡ x.resource_id)
      → Triple (Open t) (db_exec (λ now. Tasks.update_task t.id (f now))) (λ _. Counted) Counted
  write-Counted f same_id same_resource =
      Triple-exec _
        (λ now w h.
          Counted-stable.stable _
            (Counted-write (f now) (same_id now) (same_resource now) t w h.here fresh h.counted))
        (λ w h. Counted-stable.stable w h.counted)

  publish_task-Counted :
      (m : Manager) (total : ℤ) → Triple (Open t) (publish_task m t total) (λ _. Counted) Counted
  unfolding publish_task Tasks.update_queued Tasks.set_queued
  publish_task-Counted m total =
      Triple-if (m.queue_resolver t.device_type t.priority =? "") _ _
        (Triple-raise _ (λ w h. h.counted))
        (Triple-bind _ _ (broker_publish-Open t _) (λ id.
          write-Counted (λ now. Tasks.set_queued now id) (λ now x i. x.id)
            (λ now x i. x.resource_id)))

row-Counted :
    (j : Kind) (id : String) (f : ℕ → Row (Attrs j) → Row (Attrs j))
    → ((now : ℕ) (r : Row (Attrs j))
        → ((f now r).id ≡ r.id) × ((f now r).completed_tasks ≡ r.completed_tasks))
    → Keeps Counted (db_exec (λ now. Table.update_row j id (f now)))
row-Counted j id f keep =
    Keeps-exec Counted-stable _ (λ now w h. Counted-update_row j id (f now) (keep now) w h)

ok_injective : {A : Type 0} (a b : A) → ok a ≡ ok b → a ≡ b
ok_injective a b h = cc

one_ok : (o : Option Task) (a : Task) → Tasks.one o ≡ ok a → o ≡ some a
unfolding Tasks.one
one_ok none a h = cc
one_ok (some t) a h = cc

pending_of :
    (rid : String) (t : Task) → Tasks.is_pending_of rid t ≡ true → is_pending t.status ≡ true
pending_of rid t h = ground arith

-- What `GetNextPendingTask` answers.
NextIs : Option Task → World → Type 0
NextIs none w = Counted w
NextIs (some t) w = Open t w × (is_pending t.status ≡ true)

next-NextIs : (rid : String) → Triple Counted (Tasks.get_next_pending_task rid) NextIs Counted
unfolding Tasks.get_next_pending_task NextIs
next-NextIs rid = Triple-query Counted-stable _ answered Counted-stable.stable
  where
    answered :
        (w : World) (a : Option Task)
        → Counted w
        → ok (first (order_by Tasks.lower_order (select (Tasks.is_pending_of rid) w.tasks))) ≡ ok a
        → NextIs a (tick w)
    answered w none h e = Counted-stable.stable w h
    answered w (some t) h e =
        let (m, pends) =
          In-select (Tasks.is_pending_of rid) w.tasks t
            (In-order_by Tasks.lower_order _ t (In-first _ t (ok_injective _ _ e))) in
        (record { here = m; counted = Counted-stable.stable w h }, pending_of rid t pends)

not_completed : (s : TaskStatus) → is_pending s ≡ true → is_completed s ≡ false
not_completed s h = ground arith

open_of_fresh : (s : TaskStatus) → is_settled s ≡ false → is_completed s ≡ false
open_of_fresh s h = ground arith

module _ (m : Manager) (j : Kind) (c : StepContext) where
  publish_next-Counted :
      (o : Option Task) → Triple (NextIs o) (publish_next m c o) (λ _. Counted) Counted
  unfolding publish_next NextIs
  publish_next-Counted none = Triple-raise _ (λ w h. h)
  publish_next-Counted (some t) = Triple-or_wrap _ _ (record {
    at = λ e w h. (publish_task-Counted t (not_completed t.status h.1) m c.total_steps).at e w h.0;
  })

  on_success-Counted :
      (t : Task) (r : ReplyPayload)
      → is_settled t.status ≡ false
      → Triple
          (Found c.resource_id (int_succ c.step_index) t)
          (on_success m (Table.store j) c t r)
          (λ _. Counted)
          Counted
  unfolding on_success Table.store Tasks.update_result
  on_success-Counted t r fresh =
      Triple-bind _ _
        (Triple-or_wrap _ _ (
          Triple-exec {Q = λ _. CountedPlus c.resource_id} _
            (λ now w h.
              (CountedPlus-stable c.resource_id).stable _
                (Counted-complete c.resource_id (int_succ c.step_index) t fresh r.result now w h))
            (λ w h. Counted-stable.stable w h.counted)))
        (λ _.
          Triple-bind _ _
            (Triple-or_wrap _ _ (
              Triple-exec {Q = λ _. Counted} _
                (λ now w h. Counted-stable.stable _ (Counted-add_completed j c.resource_id now w h))
                (λ w h. Counted-stable.stable w (Counted-from-CountedPlus c.resource_id w h))))
            (λ _.
              Triple-if (int_eq c.step_index (int_pred c.total_steps)) _ _
                (Triple-or_wrap _ _
                  (row-Counted j c.resource_id _ (λ now x. (λ i. x.id, λ i. x.completed_tasks))))
                (Triple-bind _ _ (Triple-or_wrap _ _ (next-NextIs c.resource_id))
                  publish_next-Counted)))

  on_failure-Counted :
      (t : Task) (r : ReplyPayload)
      → is_completed t.status ≡ false
      → Triple (Open t) (on_failure (Table.store j) c t r) (λ _. Counted) Counted
  unfolding on_failure Table.store Tasks.update_result Tasks.update_retry_progress
  on_failure-Counted t r fresh =
      Triple-if (not r.final_failure) _ _
        (Triple-or_wrap _ _ (write-Counted t fresh _ (λ now x i. x.id) (λ now x i. x.resource_id)))
        (Triple-bind _ _
          (Triple-or_wrap _ _
            (write-Counted t fresh _ (λ now x i. x.id) (λ now x i. x.resource_id)))
          (λ _.
            Triple-bind _ _
              (Triple-or_wrap _ _
                (row-Counted j c.resource_id _ (λ now x. (λ i. x.id, λ i. x.completed_tasks))))
              (λ _.
                Triple-or_wrap _ _
                  (row-Counted j c.resource_id _ (λ now x. (λ i. x.id, λ i. x.completed_tasks))))))

  on_status-Counted :
      (t : Task) (r : ReplyPayload) (s : ReplyStatus)
      → is_settled t.status ≡ false
      → Triple
          (Found c.resource_id (int_succ c.step_index) t)
          (on_status m (Table.store j) c t r s)
          (λ _. Counted)
          Counted
  unfolding on_status
  on_status-Counted t r ReplyStatus.success fresh = on_success-Counted t r fresh
  on_status-Counted t r ReplyStatus.failed fresh =
      Triple-from _
        (λ w h. record { here = In-find_where _ w.tasks t h.found; counted = h.counted })
        (on_failure-Counted t r (open_of_fresh t.status fresh))
  on_status-Counted t r (ReplyStatus.other x) fresh = Triple-raise _ (λ w h. h.counted)

  with_store-Counted : (r : ReplyPayload) → Keeps Counted (with_store m c r (some (Table.store j)))
  unfolding with_store Tasks.get_by_resource_and_order
  with_store-Counted r =
      Triple-bind {Q = Found c.resource_id (int_succ c.step_index)} _ _
        (Triple-or_wrap _ _ (
          Triple-query Counted-stable _
            (λ w a h eq. record { found = one_ok _ a eq; counted = Counted-stable.stable w h })
            Counted-stable.stable))
        (λ t. elim (Bool-cases (is_settled t.status)) [
          | inl settled ↦ rw settled (Triple-pure tt (λ w h. h.counted))
          | inr fresh ↦ rw fresh (on_status-Counted t r r.status fresh)
        ])

lift-Counted : {A : Type 0} (r : Result A) → Keeps Counted (lift r)
lift-Counted (ok a) = record { at = λ e w h. h }
lift-Counted (err x) = record { at = λ e w h. h }

any_store-Counted :
    (m : Manager) (c : StepContext) (r : ReplyPayload)
    → IsBacked m
    → Keeps Counted (with_store m c r (resource_store m c.resource_type))
any_store-Counted m c r b = elim (Option-cases (resource_store m c.resource_type)) [
  | inl missing ↦ rw missing (unfold with_store in Keeps-raise _)
  | inr (s, here) ↦
      let (j, same) = b.backed c.resource_type s here in
      rw here (rw same (with_store-Counted m j c r))
]

handle_reply-Keeps :
    (m : Manager) (msg : Option Message) → IsBacked m → Keeps Counted (handle_reply m msg)
unfolding handle_reply
handle_reply-Keeps m none b = Keeps-raise _
handle_reply-Keeps m (some msg) b = Triple-bind _ _ (lift-Counted (decode_reply msg.payload)) (λ r.
    Triple-bind _ _ (lift-Counted (metadata_context msg.metadata)) (λ c. any_store-Counted m c r b))

-- If every store of the manager is a resource table, the ids of the tasks are distinct, and no row
-- counts more completed tasks than its resource has, then the last two hold after `HandleReply` as
-- well, whatever the message and whichever calls fail.
pub handle_reply-Counted :
    (m : Manager) (msg : Option Message) (e : Env) (w : World)
    → IsBacked m
    → Counted w
    → Counted (handle_reply m msg e w).1
handle_reply-Counted m msg e w b h =
    Keeps-world (handle_reply m msg) (handle_reply-Keeps m msg b) e w h
