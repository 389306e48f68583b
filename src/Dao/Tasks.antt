-- ===== src/Dao/Tasks.antt =====
-- internal/db/dao/task_dao.go: the table `tasks`.
pub mod Keys
use vpc_workflow_demo.Prelude.{
  ℕ, String, Bool, ◌&&◌, ◌||◌, Option, none, some, List, [], ◌∷◌, ◌++◌, map, ltb, ◌==◌, ◌=?◌,
  if◌then◌else◌, select, find_where, update_where, count_where, order_by, first,
}
use vpc_workflow_demo.Decimal.{ℤ, pos, int_eq}
use vpc_workflow_demo.Models.{Task, TaskStatus, is_completed, is_failed, is_pending}
use vpc_workflow_demo.World.{
  Result, ok, err, no_rows, external, World, Exec, pure, db_exec, db_query, now, ◌>>=◌, ◌>>◌,
}

-- `coalesceTime`: the zero time is replaced.
unfoldable pub coalesce_time : ℕ → ℕ → ℕ
coalesce_time value fallback = if value == 0 then fallback else value

unfoldable pub stamp : ℕ → Task → Task
unfolding coalesce_time
stamp t task = record task {
  created_at = coalesce_time task.created_at t;
  updated_at = coalesce_time task.updated_at t;
}

abbrev pub has_id : String → Task → Bool
has_id id t = t.id =? id

unfoldable pub id_is_free : Option Task → Result (Unit {0})
id_is_free none = ok tt
id_is_free (some _) = err (external "duplicate key value violates unique constraint tasks_pkey")

-- The rows that a transaction has inserted are seen by it alone until it commits.
unfoldable pub insert_staged : List Task → List Task → Exec (List Task)
unfolding id_is_free
insert_staged staged [] = pure staged
insert_staged staged (t ∷ ts) =
    db_query (λ w. id_is_free (find_where (has_id t.id) (w.tasks ++ staged)))
    >> insert_staged (staged ++ t ∷ []) ts

-- All rows are inserted, or none.
unfoldable pub batch_create : List Task → Exec (Unit {0})
unfolding stamp insert_staged
batch_create ts = do
  db_exec (λ _ w. w)
  t ← now
  staged ← insert_staged [] (map (stamp t) ts)
  db_exec (λ _ w. record w { tasks = w.tasks ++ staged })

unfoldable pub one : Option Task → Result Task
one none = err no_rows
one (some t) = ok t

unfoldable pub get_by_id : String → Exec Task
unfolding one
get_by_id id = db_query (λ w. one (find_where (has_id id) w.tasks))

abbrev pub of_resource : String → Task → Bool
of_resource rid t = t.resource_id =? rid

-- `ORDER BY task_order ASC, created_at ASC`
abbrev pub earlier : Task → Task → Bool
earlier a b =
    ltb a.task_order b.task_order || (a.task_order == b.task_order && ltb a.created_at b.created_at)

unfoldable pub get_by_resource_id : String → Exec (List Task)
get_by_resource_id rid = db_query (λ w. ok (order_by earlier (select (of_resource rid) w.tasks)))

abbrev pub at_order : String → ℤ → Task → Bool
at_order rid order t = of_resource rid t && int_eq (pos t.task_order) order

unfoldable pub get_by_resource_and_order : String → ℤ → Exec Task
unfolding one
get_by_resource_and_order rid order = db_query (λ w. one (find_where (at_order rid order) w.tasks))

abbrev pub is_pending_of : String → Task → Bool
is_pending_of rid t = of_resource rid t && is_pending t.status

abbrev pub lower_order : Task → Task → Bool
lower_order a b = ltb a.task_order b.task_order

-- `LIMIT 1` of the pending rows by order; no row is no error here.
unfoldable pub get_next_pending_task : String → Exec (Option Task)
get_next_pending_task rid =
    db_query (λ w. ok (first (order_by lower_order (select (is_pending_of rid) w.tasks))))

pub record TaskStats : Type 0 where
  pub total : ℕ
  pub completed : ℕ
  pub failed : ℕ

unfoldable pub stats_of : String → List Task → TaskStats
stats_of rid ts = record {
  total = count_where (of_resource rid) ts;
  completed = count_where (λ t. of_resource rid t && is_completed t.status) ts;
  failed = count_where (λ t. of_resource rid t && is_failed t.status) ts;
}

unfoldable pub get_task_stats : String → Exec TaskStats
unfolding stats_of
get_task_stats rid = db_query (λ w. ok (stats_of rid w.tasks))

-- `UPDATE tasks SET ... WHERE id = ...`
unfoldable pub update_task : String → (Task → Task) → World → World
update_task id f w = record w { tasks = update_where (has_id id) f w.tasks }

-- The time column that a status sets.
unfoldable pub set_status : ℕ → TaskStatus → Task → Task
set_status t TaskStatus.queued r = record r {
  status = TaskStatus.queued;
  updated_at = t;
  queued_at = some t;
}
set_status t TaskStatus.running r = record r {
  status = TaskStatus.running;
  updated_at = t;
  started_at = some t;
}
set_status t TaskStatus.pending r = record r { status = TaskStatus.pending; updated_at = t }
set_status t s r = record r { status = s; updated_at = t; completed_at = some t }

unfoldable pub update_status : String → TaskStatus → Exec (Unit {0})
unfolding update_task set_status
update_status id s = db_exec (λ t. update_task id (set_status t s))

unfoldable pub set_queued : ℕ → String → Task → Task
set_queued t broker_id r = record r {
  status = TaskStatus.queued;
  asynq_task_id = broker_id;
  queued_at = some t;
  updated_at = t;
}

unfoldable pub update_queued : String → String → Exec (Unit {0})
unfolding update_task set_queued
update_queued id broker_id = db_exec (λ t. update_task id (set_queued t broker_id))

unfoldable pub set_retry : ℕ → ℕ → ℕ → String → Task → Task
set_retry t count max message r = record r {
  status = TaskStatus.queued;
  retry_count = count;
  max_retries = max;
  error_message = message;
  updated_at = t;
}

unfoldable pub update_retry_progress : String → ℕ → ℕ → String → Exec (Unit {0})
unfolding update_task set_retry
update_retry_progress id count max message =
    db_exec (λ t. update_task id (set_retry t count max message))

unfoldable pub set_result : ℕ → TaskStatus → String → String → Task → Task
set_result t s result message r = record r {
  status = s;
  result = result;
  error_message = message;
  completed_at = some t;
  updated_at = t;
}

unfoldable pub update_result : String → TaskStatus → String → String → Exec (Unit {0})
unfolding update_task set_result
update_result id s result message = db_exec (λ t. update_task id (set_result t s result message))
