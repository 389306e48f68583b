-- ===== src/Dao/Tasks/Keys.antt =====
-- The primary key of the table `tasks`.
use vpc_workflow_demo.Models.{Task}
use vpc_workflow_demo.Prelude.{
  String, List, In, ◌≡◌, ◌∷◌, All, update_where, Bool-cases, true, inl, All-lookup, inr, [], ◌=?◌,
  false, All-update_where, ap, All-from-In, arith, text_eq_iff,
}
use vpc_workflow_demo.Dao.Tasks.{has_id}

abbrev pub DistinctIds : List Task → Type 0
DistinctIds [] = Unit
DistinctIds (x ∷ xs) = All (λ y. (y.id =? x.id) ≡ false) xs × DistinctIds xs

-- Only the row itself has its id.
pub same_of_id :
    (l : List Task) (t : Task) → DistinctIds l → In t l → All (λ x. has_id t.id x ≡ true → x ≡ t) l
same_of_id [] t d m = tt
same_of_id (x ∷ xs) t d (inl e) = (λ _. e, All-from-In _ xs (λ a m h. absurd (clash a m h)))
  where
    clash : (a : Task) → In a xs → has_id t.id a ≡ true → ⊥
    clash a m h =
        cc (
          All-lookup (λ y. (y.id =? x.id) ≡ false) xs a d.0 m,
          h,
          ap (λ (u : Task). a.id =? u.id) e,
        )
same_of_id (x ∷ xs) t d (inr m) = (λ h. absurd (clash h), same_of_id xs t d.1 m)
  where
    clash : has_id t.id x ≡ true → ⊥
    clash h =
        let differs : (t.id =? x.id) ≡ false =
          All-lookup (λ y. (y.id =? x.id) ≡ false) xs t d.0 m in
        ground (arith, text_eq_iff x.id t.id, text_eq_iff t.id x.id)

module _ (id : String) (f : Task → Task) (keep : (x : Task) → (f x).id ≡ x.id) where
  ids-update_where :
      (y : String) (l : List Task)
      → All (λ x. (x.id =? y) ≡ false) l
      → All (λ x. (x.id =? y) ≡ false) (update_where (has_id id) f l)
  ids-update_where y l h =
      All-update_where (λ x. (x.id =? y) ≡ false) (has_id id) f (λ x e. rw keep e) l h

  -- A statement that leaves the ids alone keeps them distinct.
  pub DistinctIds-update_where :
      (l : List Task) → DistinctIds l → DistinctIds (update_where (has_id id) f l)
  unfolding update_where
  DistinctIds-update_where [] d = tt
  DistinctIds-update_where (x ∷ xs) d = elim (Bool-cases (has_id id x)) [
    | inl t ↦ rw t (rw keep (ids-update_where x.id xs d.0), DistinctIds-update_where xs d.1)
    | inr n ↦ rw n (ids-update_where x.id xs d.0, DistinctIds-update_where xs d.1)
  ]
