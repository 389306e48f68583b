-- ===== src/Dao/Table.antt =====
-- The statements that internal/db/dao/dao.go, pccn_dao.go and internal/az/vfw/dao/dao.go repeat for
-- each resource table, and the interface `ResourceStore` of internal/orchestration/workflow.go.
pub mod Frame
use vpc_workflow_demo.Prelude.{
  ℕ, ◌+◌, String, Bool, ◌&&◌, Option, none, some, List, ltb, ◌=?◌, update_where, find_where, select,
  not, order_by, ◌||◌, ◌++◌, ◌∷◌, [],
}
use vpc_workflow_demo.Models.{Kind, Attrs, Row, ResourceStatus, is_deleted}
use vpc_workflow_demo.World.{
  Result, ok, err, no_rows, external, World, Exec, rows_of, with_rows, db_exec, db_query,
}

pub record ResourceStore : Type 0 where
  pub update_total_tasks : String → ℕ → Exec (Unit {0})
  pub increment_completed_tasks : String → Exec (Unit {0})
  pub increment_failed_tasks : String → Exec (Unit {0})
  pub update_status : String → ResourceStatus → String → Exec (Unit {0})

module _ {A : Type 0} where
  abbrev pub has_id : String → Row A → Bool
  has_id id r = r.id =? id

  abbrev pub has_name : String → String → Row A → Bool
  has_name name az r = (r.name =? name) && (r.az =? az)

  unfoldable pub set_total_tasks : ℕ → ℕ → Row A → Row A
  set_total_tasks t n r = record r { total_tasks = n; updated_at = t }

  unfoldable pub add_completed : ℕ → Row A → Row A
  add_completed t r = record r { completed_tasks = r.completed_tasks + 1; updated_at = t }

  unfoldable pub add_failed : ℕ → Row A → Row A
  add_failed t r = record r { failed_tasks = r.failed_tasks + 1; updated_at = t }

  unfoldable pub set_status : ℕ → ResourceStatus → String → Row A → Row A
  set_status t s message r = record r { status = s; error_message = message; updated_at = t }

  unfoldable pub one : Option (Row A) → Result (Row A)
  one none = err no_rows
  one (some r) = ok r

  -- `ORDER BY created_at DESC`
  abbrev pub newer : Row A → Row A → Bool
  newer a b = ltb b.created_at a.created_at

module _ (k : Kind) where
  unfoldable pub set_rows : List (Row (Attrs k)) → World → World
  set_rows l w = record w { rows = with_rows k l w.rows }

  unfoldable pub table : World → List (Row (Attrs k))
  table w = rows_of k w.rows

  unfoldable pub update_row : String → (Row (Attrs k) → Row (Attrs k)) → World → World
  unfolding set_rows table
  update_row id f w = set_rows (update_where (has_id id) f (table w)) w

  unfoldable pub store : ResourceStore
  unfolding update_row set_total_tasks add_completed add_failed set_status
  store = record {
    update_total_tasks = λ id n. db_exec (λ t. update_row id (set_total_tasks t n));
    increment_completed_tasks = λ id. db_exec (λ t. update_row id (add_completed t));
    increment_failed_tasks = λ id. db_exec (λ t. update_row id (add_failed t));
    update_status = λ id s message. db_exec (λ t. update_row id (set_status t s message));
  }

  unfoldable pub get_by_id : String → Exec (Row (Attrs k))
  unfolding table one
  get_by_id id = db_query (λ w. one (find_where (has_id id) (table w)))

  unfoldable pub get_by_name : String → String → Exec (Row (Attrs k))
  unfolding table one
  get_by_name name az = db_query (λ w. one (find_where (has_name name az) (table w)))

  unfoldable pub list_all : Exec (List (Row (Attrs k)))
  unfolding table
  list_all = db_query (λ w. ok (order_by newer (select (λ r. not (is_deleted r.status)) (table w))))

  unfoldable pub delete_where : (Row (Attrs k) → Bool) → Exec (Unit {0})
  unfolding table set_rows
  delete_where p = db_exec (λ _ w. set_rows (select (λ r. not (p r)) (table w)) w)

  -- `INSERT` into a table with the primary key `id` and one more unique key: a violated key is an
  -- error, and the columns `created_at` and `updated_at` take the time of the statement.
  unfoldable pub insert_unless : Option (Row (Attrs k)) → Row (Attrs k) → Exec (Unit {0})
  unfolding table set_rows
  insert_unless (some _) r =
      db_query (λ _. err (external "duplicate key value violates unique constraint"))
  insert_unless none r =
      db_exec (λ t w. set_rows (table w ++ record r { created_at = t; updated_at = t } ∷ []) w)

  unfoldable pub insert : (Row (Attrs k) → Bool) → Row (Attrs k) → Exec (Unit {0})
  unfolding insert_unless table
  insert same r e w = insert_unless (find_where (λ x. has_id r.id x || same x) (table w)) r e w
