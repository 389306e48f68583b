-- ===== src/Dao/Pccn/Conflict.antt =====
-- The `ON CONFLICT` clause of internal/db/dao/pccn_dao.go.
use vpc_workflow_demo.World.{db_exec, exec_unless, Env, World}
use vpc_workflow_demo.Models.{PccnResource, pccn}
use vpc_workflow_demo.Prelude.{
  ℕ, ◌≡◌, find_where, some, All, false, Option-cases, inl, inr, List, Bool-cases, update_where,
  update_where_none, All-update_where, ap, ◌=?◌, ◌∙◌, refl,
}
use vpc_workflow_demo.Dao.Table
use vpc_workflow_demo.Dao.Pccn.{create, create_unless, overwrite, is_replaceable}

overwrite_id : (t : ℕ) (r old : PccnResource) → (overwrite t r old).id ≡ old.id
unfolding overwrite
overwrite_id t r old = elim (Bool-cases (is_replaceable old.status)) [ inl y ↦ rw y | inr n ↦ rw n ]

-- A new row with a name that is taken does not bring its id into the table: if no row has the id,
-- then after `Create`, whether it fails or not, no statement on the row of that id changes anything.
pub create-conflict :
    (r old : PccnResource) (e : Env) (w : World) (f : PccnResource → PccnResource)
    → find_where (Table.has_name r.name r.az) w.rows.pccns ≡ some old
    → All (λ x. Table.has_id r.id x ≡ false) w.rows.pccns
    → Table.update_row pccn r.id f (create r e w).1 ≡ (create r e w).1
unfolding create create_unless Table.update_row Table.set_rows Table.table db_exec exec_unless
create-conflict r old e w f taken absent = elim (Option-cases (e.fault w.calls)) [
  | inl fine ↦
      rw (taken, fine)
        (rw
          (untouched
            (update_where (Table.has_name r.name r.az) (overwrite (e.clock w.calls) r) w.rows.pccns)
            (overwritten (e.clock w.calls)))
          refl)
  | inr (x, broken) ↦ rw (taken, broken) (rw (untouched w.rows.pccns absent) refl)
]
  where
    untouched :
        (l : List PccnResource)
        → All (λ x. Table.has_id r.id x ≡ false) l
        → update_where (Table.has_id r.id) f l ≡ l
    untouched l h = update_where_none (Table.has_id r.id) f l h

    overwritten :
        (t : ℕ)
        → All
            (λ x. Table.has_id r.id x ≡ false)
            (update_where (Table.has_name r.name r.az) (overwrite t r) w.rows.pccns)
    overwritten t =
        All-update_where (λ x. Table.has_id r.id x ≡ false) (Table.has_name r.name r.az)
          (overwrite t r) (λ x h. ap (λ i. i =? r.id) (overwrite_id t r x) ∙ h) w.rows.pccns absent
