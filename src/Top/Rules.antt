-- ===== src/Top/Rules.antt =====
-- What holds of an action of the top layer, whichever calls fail: that it answers no error, and what it
-- keeps of the tables.
use vpc_workflow_demo.Prelude.{
  ℕ, ◌≡◌, refl, String, Bool, true, false, Option, none, some, if◌then◌else◌,
}
use vpc_workflow_demo.World.{Result, ok, err, Err}
use vpc_workflow_demo.Top.World.{
  Act, Top, TopEnv, tick, call, new_uuid, raise, or_wrap, pure, attempt, asked, ignore, db_query,
  db_exec, exec_unless, continue, ◌>>=◌,
}

-- The action answers a value, of which `Q` holds.
pub record Answers {ℓ} {A : Type ℓ} (Q : A → Type 0) (m : Act A) : Type ℓ where
  pub at : (e : TopEnv) (w : Top) → (a : A) × ((m e w).0 ≡ ok a) × Q a

module _ {ℓ} {A : Type ℓ} where
  pub Answers-pure : {Q : A → Type 0} (a : A) → Q a → Answers Q (pure a)
  unfolding pure
  Answers-pure a q = record { at = λ e w. (a, refl, q) }

  pub Answers-asked : (q : TopEnv → ℕ → Result A) → Answers (λ _. Unit {0}) (asked q)
  unfolding asked
  Answers-asked q = record { at = λ e w. (_, refl, tt) }

  pub Answers-attempt : (m : Act A) → Answers (λ _. Unit {0}) (attempt m)
  unfolding attempt
  Answers-attempt m = record { at = λ e w. (_, refl, tt) }

  pub Answers-ignore : (m : Act A) → Answers (λ _. Unit {0}) (ignore m)
  unfolding ignore
  Answers-ignore m = record { at = λ e w. (tt, refl, tt) }

  pub Answers-if :
      {Q : A → Type 0} (b : Bool) (m n : Act A)
      → Answers Q m
      → Answers Q n
      → Answers Q (if b then m else n)
  Answers-if true m n h k = h
  Answers-if false m n h k = k

module _ {ℓ κ} {A : Type ℓ} {B : Type κ} {Q : A → Type 0} {R : B → Type 0} where
  pub Answers-bind :
      (m : Act A) (f : A → Act B)
      → Answers Q m
      → ((a : A) → Q a → Answers R (f a))
      → Answers R (m >>= f)
  Answers-bind m f h k = record {
    at = λ e w. let (a, eq, q) = h.at e w in rw eq ((k a q).at e (m e w).1);
  }

-- The action keeps `P` of the tables, whether it returns or fails.
pub record Keeps {ℓ} {A : Type ℓ} (P : Top → Type 0) (m : Act A) : Type ℓ where
  pub at : (e : TopEnv) (w : Top) → P w → P (m e w).1

-- The count of calls is no part of `P`.
pub record IsStable (P : Top → Type 0) : Type 0 where
  pub stable : (w : Top) → P w → P (tick w)

module _ {P : Top → Type 0} (s : IsStable P) where
  pub Keeps-asked {ℓ} : {A : Type ℓ} (q : TopEnv → ℕ → Result A) → Keeps P (asked q)
  unfolding asked
  Keeps-asked q = record { at = λ e w p. s.stable w p }

  pub Keeps-query {ℓ} : {A : Type ℓ} (q : Top → Result A) → Keeps P (db_query q)
  unfolding db_query
  Keeps-query q = record { at = λ e w p. s.stable w p }

  pub Keeps-call {ℓ} : {A : Type ℓ} (q : TopEnv → ℕ → Result A) → Keeps P (call q)
  unfolding call
  Keeps-call q = record { at = λ e w p. s.stable w p }

  pub Keeps-new_uuid : Keeps P new_uuid
  unfolding new_uuid
  Keeps-new_uuid = record { at = λ e w p. s.stable w p }

  pub Keeps-exec : (f : ℕ → Top → Top) → ((t : ℕ) (w : Top) → P w → P (f t w)) → Keeps P (db_exec f)
  unfolding db_exec exec_unless
  Keeps-exec f keep = record { at = λ e w p. written (e.fault w.calls) (e.clock w.calls) w p }
    where
      written : (o : Option String) (t : ℕ) (w : Top) → P w → P (exec_unless o (f t) w).1
      written none t w p = s.stable (f t w) (keep t w p)
      written (some x) t w p = s.stable w p

module _ {ℓ} {A : Type ℓ} {P : Top → Type 0} where
  pub Keeps-pure : (a : A) → Keeps P (pure a)
  unfolding pure
  Keeps-pure a = record { at = λ e w p. p }

  pub Keeps-raise : (x : Err) → Keeps P (raise {A = A} x)
  unfolding raise
  Keeps-raise x = record { at = λ e w p. p }

  pub Keeps-or_wrap : (t : String) (m : Act A) → Keeps P m → Keeps P (or_wrap t m)
  unfolding or_wrap
  Keeps-or_wrap t m k = record { at = λ e w p. k.at e w p }

  pub Keeps-attempt : (m : Act A) → Keeps P m → Keeps P (attempt m)
  unfolding attempt
  Keeps-attempt m k = record { at = λ e w p. k.at e w p }

  pub Keeps-ignore : (m : Act A) → Keeps P m → Keeps P (ignore m)
  unfolding ignore
  Keeps-ignore m k = record { at = λ e w p. k.at e w p }

  pub Keeps-if : (b : Bool) (m n : Act A) → Keeps P m → Keeps P n → Keeps P (if b then m else n)
  Keeps-if true m n h k = h
  Keeps-if false m n h k = k

pub Keeps-bind {ℓ κ} :
    {A : Type ℓ} {B : Type κ} {P : Top → Type 0} (m : Act A) (f : A → Act B)
    → Keeps P m
    → ((a : A) → Keeps P (f a))
    → Keeps P (m >>= f)
Keeps-bind {A = A} {P = P} m f h k = record {
  at = λ e w p. continued (m e w).0 e (m e w).1 (h.at e w p);
}
  where
    continued : (r : Result A) (e : TopEnv) (w : Top) → P w → P (continue r f e w).1
    continued (ok a) e w p = (k a).at e w p
    continued (err x) e w p = p
