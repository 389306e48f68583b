-- ===== src/Workflow/Counters.antt =====
-- The counter `completed_tasks` of a resource against the tasks that are completed, whichever
-- calls fail.
pub mod Replies
use vpc_workflow_demo.Dao.Table.{ResourceStore}
use vpc_workflow_demo.Decimal.{ℤ}
use vpc_workflow_demo.Dao.Tasks.{of_resource, at_order}
use vpc_workflow_demo.World.{World}
use vpc_workflow_demo.Models.{Kind, Row, Task, Attrs, is_completed, is_settled, TaskStatus}
use vpc_workflow_demo.Prelude.{
  List, String, All, ℕ, ◌+◌, ◌∷◌, ◌≤◌, count_where, if◌then◌else◌, ◌≡◌, ◌&&◌, [], ◌=?◌, true, arith,
  count_where-le-update_where, update_where, find_where, some, false, Bool-cases, find_where-holds,
  count_where-lt-update_where, inl, text_eq_iff, text_eq_refl, ap, inr, In,
}
use vpc_workflow_demo.Dao.Tasks
use vpc_workflow_demo.Dao.Tasks.Keys.{DistinctIds, DistinctIds-update_where, same_of_id}
use vpc_workflow_demo.Dao.Table
use vpc_workflow_demo.Dao.Table.Frame.{All-map, All-update_row}
use vpc_workflow_demo.Workflow.Manager.{Manager, resource_store}
use vpc_workflow_demo.World.Hoare.{IsStable}

-- How many tasks of a resource are completed.
abbrev pub completed_of : String → List Task → ℕ
completed_of rid ts = count_where (λ t. of_resource rid t && is_completed t.status) ts

-- Every store that the manager knows is the table of one kind of resource.
pub record IsBacked (m : Manager) : Type 1 where
  pub backed :
      (rt : String) (s : ResourceStore)
      → resource_store m rt ≡ some s
      → (k : Kind) × (s ≡ Table.store k)

abbrev RowsCounted : World → Type 0
RowsCounted w =
    (k : Kind) → All (λ r. r.completed_tasks ≤ completed_of r.id w.tasks) (Table.table k w)

-- Task ids are unique, and no row counts more completed tasks than there are.
pub record Counted (w : World) : Type 0 where
  pub unique : DistinctIds w.tasks
  pub all_rows : RowsCounted w

-- The same, and one more completed task of `rid` that is not counted yet.
record CountedPlus (rid : String) (w : World) : Type 0 where
  unique : DistinctIds w.tasks
  all_rows :
      (k : Kind)
      → All
          (λ r. r.completed_tasks + (if r.id =? rid then 1 else 0) ≤ completed_of r.id w.tasks)
          (Table.table k w)

Counted-stable : IsStable Counted
unfolding Table.table
Counted-stable = record { stable = λ w h. record { unique = h.unique; all_rows = h.all_rows } }

CountedPlus-stable : (rid : String) → IsStable (CountedPlus rid)
unfolding Table.table
CountedPlus-stable rid = record {
  stable = λ w h. record { unique = h.unique; all_rows = h.all_rows };
}

le_of_add : (a b c : ℕ) → a + b ≤ c → a ≤ c
le_of_add a b c h = omega arith

Counted-from-CountedPlus : (rid : String) (w : World) → CountedPlus rid w → Counted w
Counted-from-CountedPlus rid w h = record {
  unique = h.unique;
  all_rows = λ k.
      All-map (λ r. r.completed_tasks + (if r.id =? rid then 1 else 0) ≤ completed_of r.id w.tasks)
        (λ r. r.completed_tasks ≤ completed_of r.id w.tasks)
        (λ r p. le_of_add _ (if r.id =? rid then 1 else 0) _ p) (Table.table k w) (h.all_rows k);
}

module _ (f : Task → Task) (same_id : (x : Task) → (f x).id ≡ x.id)
    (same_resource : (x : Task) → (f x).resource_id ≡ x.resource_id) where
  rows_of_write :
      (id : String) (w : World)
      → ((rid : String)
          → All
              (λ x.
                Tasks.has_id id x ≡ true
                → (of_resource rid x && is_completed x.status) ≡ true
                → (of_resource rid (f x) && is_completed (f x).status) ≡ true)
              w.tasks)
      → RowsCounted w
      → RowsCounted (Tasks.update_task id f w)
  unfolding Tasks.update_task Table.table
  rows_of_write id w keep h k =
      All-map (λ r. r.completed_tasks ≤ completed_of r.id w.tasks)
        (λ r. r.completed_tasks ≤ completed_of r.id (update_where (Tasks.has_id id) f w.tasks))
        (λ r p. omega (
          arith,
          count_where-le-update_where (λ t. of_resource r.id t && is_completed t.status)
              (Tasks.has_id id) f w.tasks (keep r.id),
        ))
        (Table.table k w) (h k)

  -- A write to a task that is not completed keeps the invariant.
  pub Counted-write :
      (t : Task) (w : World)
      → In t w.tasks
      → is_completed t.status ≡ false
      → Counted w
      → Counted (Tasks.update_task t.id f w)
  unfolding Tasks.update_task
  Counted-write t w m open_task h = record {
    unique = DistinctIds-update_where t.id f same_id w.tasks h.unique;
    all_rows =
        rows_of_write t.id w
          (λ rid.
            All-map (λ x. Tasks.has_id t.id x ≡ true → x ≡ t) _
              (λ x same q p.
                let e : is_completed x.status ≡ is_completed t.status =
                  ap (λ (u : Task). is_completed u.status) (same q) in
                ground arith)
              w.tasks (same_of_id w.tasks t h.unique m))
          h.all_rows;
  }

-- A write to the rows that keeps the ids and the counters keeps the invariant.
Counted-update_row :
    (j : Kind) (id : String) (f : Row (Attrs j) → Row (Attrs j))
    → ((r : Row (Attrs j)) → ((f r).id ≡ r.id) × ((f r).completed_tasks ≡ r.completed_tasks))
    → (w : World) → Counted w
    → Counted (Table.update_row j id f w)
unfolding Table.update_row
Counted-update_row j id f keep w h = record {
  unique = h.unique;
  all_rows =
      All-update_row (λ k r. r.completed_tasks ≤ completed_of r.id w.tasks)
        (λ k r. r.completed_tasks ≤ completed_of r.id w.tasks) (λ k r p. p) j id f
        (λ r _ p. rw (keep r).0 (rw (keep r).1 p)) w h.all_rows;
}

-- The increment that the written task stands for.
Counted-add_completed :
    (j : Kind) (rid : String) (t : ℕ) (w : World)
    → CountedPlus rid w
    → Counted (Table.update_row j rid (Table.add_completed t) w)
unfolding Table.update_row Table.add_completed
Counted-add_completed j rid t w h = record {
  unique = h.unique;
  all_rows =
      All-update_row
        (λ k r. r.completed_tasks + (if r.id =? rid then 1 else 0) ≤ completed_of r.id w.tasks)
        (λ k r. r.completed_tasks ≤ completed_of r.id w.tasks)
        (λ k r p. le_of_add _ (if r.id =? rid then 1 else 0) _ p) j rid (Table.add_completed t)
        (λ r hit p. rw hit at p) w h.all_rows;
}

row_plus :
    (id rid : String) (ts ts' : List Task) (n : ℕ)
    → n ≤ completed_of id ts
    → completed_of id ts ≤ completed_of id ts'
    → completed_of rid ts + 1 ≤ completed_of rid ts'
    → n + (if id =? rid then 1 else 0) ≤ completed_of id ts'
row_plus id rid ts ts' n a b c = elim (Bool-cases (id =? rid)) [
  | inl e ↦
      let same : id ≡ rid = (text_eq_iff id rid).0 e in
      rw e (omega (arith, ap (λ x. completed_of x ts) same, ap (λ x. completed_of x ts') same))
  | inr e ↦ rw e (omega arith)
]

-- What is known when a reply has found its task.
record Found (rid : String) (order : ℤ) (t : Task) (w : World) : Type 0 where
  found : find_where (at_order rid order) w.tasks ≡ some t
  counted : Counted w

Found-stable : (rid : String) (order : ℤ) (t : Task) → IsStable (Found rid order t)
Found-stable rid order t = record {
  stable = λ w h. record { found = h.found; counted = Counted-stable.stable w h.counted };
}

module _ (rid : String) (order : ℤ) (t : Task) (fresh : is_settled t.status ≡ false)
    (result : String) where
  abbrev completing : ℕ → Task → Task
  completing now = Tasks.set_result now TaskStatus.completed result ""

  completing-keeps :
      (now : ℕ) (id : String) (ts : List Task)
      → All
          (λ x.
            Tasks.has_id t.id x ≡ true
            → (of_resource id x && is_completed x.status) ≡ true
            → (of_resource id (completing now x) && is_completed (completing now x).status) ≡ true)
          ts
  unfolding Tasks.set_result
  completing-keeps now id [] = tt
  completing-keeps now id (x ∷ xs) = (λ q p. ground arith, completing-keeps now id xs)

  -- The written task is completed now, and was not before.
  completed_of-grows :
      (now : ℕ) (ts : List Task)
      → find_where (at_order rid order) ts ≡ some t
      → completed_of rid ts + 1
        ≤ completed_of rid (update_where (Tasks.has_id t.id) (completing now) ts)
  unfolding Tasks.set_result
  completed_of-grows now ts found =
      let holds : at_order rid order t ≡ true = find_where-holds (at_order rid order) ts t found in
      count_where-lt-update_where (λ x. of_resource rid x && is_completed x.status)
        (Tasks.has_id t.id) (completing now) (at_order rid order) ts t (completing-keeps now rid ts)
        found (text_eq_refl t.id) (ground arith) (ground arith)

  Counted-complete :
      (now : ℕ) (w : World)
      → Found rid order t w
      → CountedPlus rid (Tasks.update_task t.id (completing now) w)
  unfolding Tasks.update_task Table.table Tasks.set_result
  Counted-complete now w h = record {
    unique = DistinctIds-update_where t.id (completing now) (λ x i. x.id) w.tasks h.counted.unique;
    all_rows = λ k.
        All-map (λ r. r.completed_tasks ≤ completed_of r.id w.tasks)
          (λ r.
            r.completed_tasks + (if r.id =? rid then 1 else 0)
            ≤ completed_of r.id (update_where (Tasks.has_id t.id) (completing now) w.tasks))
          (λ r p.
            row_plus r.id rid w.tasks (update_where (Tasks.has_id t.id) (completing now) w.tasks)
              r.completed_tasks p
              (count_where-le-update_where (λ x. of_resource r.id x && is_completed x.status)
                (Tasks.has_id t.id) (completing now) w.tasks (completing-keeps now r.id w.tasks))
              (completed_of-grows now w.tasks h.found))
          (Table.table k w) (h.counted.all_rows k);
  }
