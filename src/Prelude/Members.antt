-- ===== src/Prelude/Members.antt =====
-- Membership in a table, and what the table operations make of it.
use mathlib.Core.Path.{◌≡◌, refl}
use mathlib.Core.Bool.{Bool, true}
use mathlib.Core.Option.{some}
use mathlib.Core.List.{List, [], ◌∷◌}
use mathlib.Core.Logic.{◌⊎◌, inl, inr}
use native.Mathlib.Omega.{arith}
use vpc_workflow_demo.Prelude.Tests.{Bool-cases}
use vpc_workflow_demo.Prelude.Lists.{select, find_where, insert_by, order_by, All, first}

module _ {A : Type 0} where
  abbrev pub In : A → List A → Type 0
  In a [] = ⊥
  In a (x ∷ xs) = (x ≡ a) ⊎ In a xs

  pub In-find_where : (p : A → Bool) (l : List A) (a : A) → find_where p l ≡ some a → In a l
  unfolding find_where
  In-find_where p [] a h = absurd (ground arith)
  In-find_where p (x ∷ xs) a h = elim (Bool-cases (p x)) [
    | inl t ↦ inl (ground arith)
    | inr n ↦ inr (In-find_where p xs a (rw n at h))
  ]

  pub In-select : (p : A → Bool) (l : List A) (a : A) → In a (select p l) → In a l × (p a ≡ true)
  unfolding select
  In-select p [] a h = elim h [ ]
  In-select p (x ∷ xs) a h = elim (Bool-cases (p x)) [
    | inl t ↦
        let h' : In a (x ∷ select p xs) = rw t at h in
        elim h' [
          | inl e ↦ (inl e, rw (← e) t)
          | inr k ↦ let (m, b) = In-select p xs a k in (inr m, b)
        ]
    | inr n ↦ let (m, b) = In-select p xs a (rw n at h) in (inr m, b)
  ]

  In-insert_by :
      (before : A → A → Bool) (y : A) (l : List A) (a : A)
      → In a (insert_by before y l)
      → (y ≡ a) ⊎ In a l
  unfolding insert_by
  In-insert_by before y [] a h = h
  In-insert_by before y (x ∷ xs) a h = ground (arith, In-insert_by before y xs a)

  pub In-order_by : (before : A → A → Bool) (l : List A) (a : A) → In a (order_by before l) → In a l
  unfolding order_by
  In-order_by before [] a h = h
  In-order_by before (x ∷ xs) a h = elim (In-insert_by before x (order_by before xs) a h) [
    | inl e ↦ inl e
    | inr k ↦ inr (In-order_by before xs a k)
  ]

  pub In-first : (l : List A) (a : A) → first l ≡ some a → In a l
  In-first [] a h = absurd (ground arith)
  In-first (x ∷ xs) a h = inl (ground arith)

module _ {κ} {A : Type 0} (P : A → Type κ) where
  pub All-lookup : (l : List A) (a : A) → All P l → In a l → P a
  All-lookup [] a h m = elim m [ ]
  All-lookup (x ∷ xs) a h (inl e) = rw (← e) h.0
  All-lookup (x ∷ xs) a h (inr m) = All-lookup xs a h.1 m

  pub All-from-In : (l : List A) → ((a : A) → In a l → P a) → All P l
  All-from-In [] h = tt
  All-from-In (x ∷ xs) h = (h x (inl refl), All-from-In xs (λ a m. h a (inr m)))
