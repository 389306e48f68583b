-- ===== src/Prelude/Tables.antt =====
-- Laws of the table operations of `Lists`.
use Prim.Native.Nat.{◌+◌, ◌≤◌}
use mathlib.Core.Path.{◌≡◌, refl, ap}
use mathlib.Core.Bool.{Bool, true, false, ◌&&◌}
use mathlib.Core.Option.{Option, none, some}
use mathlib.Core.List.{List, [], ◌∷◌, ◌++◌}
use mathlib.Core.Option
use native.Mathlib.Omega.{arith}
use vpc_workflow_demo.Prelude.Tests.{Bool-cases}
use vpc_workflow_demo.Prelude.Lists.{length, select, find_where, update_where, count_where, All}
use mathlib.Core.Logic.{inl, inr}

module _ {ℓ} {A : Type ℓ} (p q : A → Bool) where
  pub select-and : (l : List A) → select (λ x. p x && q x) l ≡ select q (select p l)
  unfolding select
  select-and [] = refl
  select-and (x ∷ xs) = elim (Bool-cases (p x)) [
    | inl t ↦ rw (t, select) (rw (select-and xs) refl)
    | inr f ↦ rw (f, select) (select-and xs)
  ]

  pub find_where-and : (l : List A) → find_where (λ x. p x && q x) l ≡ find_where q (select p l)
  unfolding select find_where
  find_where-and [] = refl
  find_where-and (x ∷ xs) = ground (arith, find_where-and xs)

module _ {ℓ} {A : Type ℓ} (p q : A → Bool) (f : A → A) where
  -- An update that does not touch what a selection reads goes through it.
  pub select-update_where :
      ((x : A) → p (f x) ≡ p x)
      → (l : List A) → select p (update_where q f l) ≡ update_where q f (select p l)
  unfolding select update_where
  select-update_where keep [] = refl
  select-update_where keep (x ∷ xs) = ground (arith, keep x, select-update_where keep xs)

  pub find_where-update_where :
      ((x : A) → p (f x) ≡ p x)
      → (l : List A) → find_where p (update_where p f l) ≡ Option.map f (find_where p l)
  unfolding find_where update_where
  find_where-update_where keep [] = refl
  find_where-update_where keep (x ∷ xs) = ground (arith, keep x, find_where-update_where keep xs)

  -- A count does not fall when the update keeps what is counted.
  pub count_where-le-update_where :
      (l : List A)
      → All (λ x. q x ≡ true → p x ≡ true → p (f x) ≡ true) l
      → count_where p l ≤ count_where p (update_where q f l)
  unfolding count_where update_where
  count_where-le-update_where [] keep = omega arith
  count_where-le-update_where (x ∷ xs) keep =
      ground (arith, keep.0, count_where-le-update_where xs keep.1)

  -- It grows when a row that was not counted is found, rewritten, and then counted.
  pub count_where-lt-update_where :
      (s : A → Bool) (l : List A) (t : A)
      → All (λ x. q x ≡ true → p x ≡ true → p (f x) ≡ true) l
      → find_where s l ≡ some t
      → q t ≡ true
      → p t ≡ false
      → p (f t) ≡ true
      → count_where p l + 1 ≤ count_where p (update_where q f l)
  unfolding find_where count_where update_where
  count_where-lt-update_where s [] t keep e a b c = absurd (ground arith)
  count_where-lt-update_where s (x ∷ xs) t keep e a b c = elim (Bool-cases (s x)) [
    | inl here ↦
        let same : x ≡ t = ground arith in
        ground (
          arith,
          ap q same,
          ap p same,
          ap (λ y. p (f y)) same,
          count_where-le-update_where xs keep.1,
        )
    | inr later ↦
        ground (arith, keep.0, count_where-lt-update_where s xs t keep.1 (rw later at e) a b c)
  ]

module _ {ℓ} {A : Type ℓ} (p : A → Bool) where
  pub select-append : (xs ys : List A) → select p (xs ++ ys) ≡ select p xs ++ select p ys
  unfolding select
  select-append [] ys = refl
  select-append (x ∷ xs) ys = ground (arith, select-append xs ys)

  pub update_where-append :
      (f : A → A) (xs ys : List A)
      → update_where p f (xs ++ ys) ≡ update_where p f xs ++ update_where p f ys
  unfolding update_where
  update_where-append f [] ys = refl
  update_where-append f (x ∷ xs) ys = rw (update_where-append f xs ys)

  pub find_where-append_none :
      (xs ys : List A) → All (λ x. p x ≡ false) xs → find_where p (xs ++ ys) ≡ find_where p ys
  unfolding find_where
  find_where-append_none [] ys h = refl
  find_where-append_none (x ∷ xs) ys h = ground (arith, find_where-append_none xs ys)

  pub update_where_none :
      (f : A → A) (xs : List A) → All (λ x. p x ≡ false) xs → update_where p f xs ≡ xs
  unfolding update_where
  update_where_none f [] h = refl
  update_where_none f (x ∷ xs) h = rw (h.0, update_where_none f xs h.1)

  pub select-eq_self : (xs : List A) → All (λ x. p x ≡ true) xs → select p xs ≡ xs
  unfolding select
  select-eq_self [] h = refl
  select-eq_self (x ∷ xs) h = rw (h.0, select-eq_self xs h.1)

  pub select-eq_nil : (xs : List A) → All (λ x. p x ≡ false) xs → select p xs ≡ []
  unfolding select
  select-eq_nil [] h = refl
  select-eq_nil (x ∷ xs) h = rw (h.0, select-eq_nil xs h.1)

  pub find_where-holds : (xs : List A) (x : A) → find_where p xs ≡ some x → p x ≡ true
  unfolding find_where
  find_where-holds [] x h = absurd (ground arith)
  find_where-holds (y ∷ xs) x h = elim (Bool-cases (p y)) [
    | inl t ↦ let same : y ≡ x = ground arith in ground (arith, ap p same)
    | inr n ↦ find_where-holds xs x (rw n at h)
  ]

  pub count_where-eq-length : (xs : List A) → count_where p xs ≡ length (select p xs)
  unfolding select count_where
  count_where-eq-length [] = refl
  count_where-eq-length (x ∷ xs) = ground (arith, count_where-eq-length xs)

module _ {ℓ κ} {A : Type ℓ} (P : A → Type κ) where
  pub All-append : (xs ys : List A) → All P xs → All P ys → All P (xs ++ ys)
  All-append [] ys h k = k
  All-append (x ∷ xs) ys h k = (h.0, All-append xs ys h.1 k)

  pub All-update_where :
      (p : A → Bool) (f : A → A)
      → ((x : A) → P x → P (f x))
      → (xs : List A) → All P xs
      → All P (update_where p f xs)
  unfolding update_where
  All-update_where p f keep [] h = h
  All-update_where p f keep (x ∷ xs) h = elim (Bool-cases (p x)) [
    | inl t ↦ rw t (keep x h.0, All-update_where p f keep xs h.1)
    | inr n ↦ rw n (h.0, All-update_where p f keep xs h.1)
  ]
