-- ===== src/World/Hoare.antt =====
-- What holds after an action, whichever calls fail: one rule for each way to build an action.
use vpc_workflow_demo.Prelude.{
  refl, Bool, ℕ, String, Option, ◌≡◌, if◌then◌else◌, true, some, false, none,
}
use vpc_workflow_demo.World.{
  World, now, new_uuid, or_wrap, Result, attempt, db_query, ignore, raise, Exec, wrap_result, Err,
  pure, tick, Env, ok, exec_unless, continue, err, query_unless,
}
use vpc_workflow_demo.World.Action.{◌>>=◌, db_exec}

-- `Q` holds of the value and the world if the action returns, `R` of the world if it fails.
abbrev pub Post {ℓ} :
    {A : Type ℓ} → (A → World → Type 0) → (World → Type 0) → Result A × World → Type 0
Post Q R (ok a, w) = Q a w
Post Q R (err x, w) = R w

pub record Triple {ℓ} {A : Type ℓ} (P : World → Type 0) (m : Exec A) (Q : A → World → Type 0)
    (R : World → Type 0) : Type ℓ where
  pub at : (e : Env) (w : World) → P w → Post Q R (m e w)

-- The action keeps `P`, whether it returns or fails.
abbrev pub Keeps {ℓ} : {A : Type ℓ} → (World → Type 0) → Exec A → Type ℓ
Keeps P m = Triple P m (λ _. P) P

-- The count of calls is no part of `P`.
pub record IsStable (P : World → Type 0) : Type 0 where
  pub stable : (w : World) → P w → P (tick w)

or_wrap-Post {ℓ} :
    {A : Type ℓ} (Q : A → World → Type 0) (R : World → Type 0) (s : String) (r : Result A)
    (w : World)
    → Post Q R (r, w)
    → Post Q R (wrap_result s r, w)
unfolding wrap_result
or_wrap-Post Q R s (ok a) w h = h
or_wrap-Post Q R s (err x) w h = h

Post-world {ℓ} :
    {A : Type ℓ} (P : World → Type 0) (r : Result A) (w : World) → Post (λ _. P) P (r, w) → P w
Post-world P (ok a) w h = h
Post-world P (err x) w h = h

bind_Post {ℓ κ} :
    {A : Type ℓ} {B : Type κ} (Q : A → World → Type 0) (R : World → Type 0) (S : B → World → Type 0)
    (f : A → Exec B)
    → ((a : A) → Triple (Q a) (f a) S R)
    → (e : Env) (r : Result A) (w : World) → Post Q R (r, w)
    → Post S R (continue r f e w)
bind_Post Q R S f k e (ok a) w h = (k a).at e w h
bind_Post Q R S f k e (err x) w h = h

module _ {ℓ} {A : Type ℓ} {P : World → Type 0} {Q : A → World → Type 0} {R : World → Type 0} where
  pub Triple-pure : (a : A) → ((w : World) → P w → Q a w) → Triple P (pure a) Q R
  unfolding pure
  Triple-pure a h = record { at = λ e w p. h w p }

  pub Triple-raise : (x : Err) → ((w : World) → P w → R w) → Triple P (raise {A = A} x) Q R
  unfolding raise
  Triple-raise x h = record { at = λ e w p. h w p }

  pub Triple-if :
      (b : Bool) (m n : Exec A)
      → Triple P m Q R
      → Triple P n Q R
      → Triple P (if b then m else n) Q R
  Triple-if true m n km kn = km
  Triple-if false m n km kn = kn

  -- A weaker condition before, and stronger ones after.
  pub Triple-from :
      {P' : World → Type 0} (m : Exec A)
      → ((w : World) → P' w → P w)
      → Triple P m Q R
      → Triple P' m Q R
  Triple-from m weaker t = record { at = λ e w p. t.at e w (weaker w p) }

  pub Triple-or_wrap : (s : String) (m : Exec A) → Triple P m Q R → Triple P (or_wrap s m) Q R
  unfolding or_wrap
  Triple-or_wrap s m t = record {
    at = λ e w p. or_wrap-Post Q R s (m e w).0 (m e w).1 (t.at e w p);
  }

  pub Triple-query :
      IsStable P
      → (q : World → Result A) → ((w : World) (a : A) → P w → q w ≡ ok a → Q a (tick w))
      → ((w : World) → P w → R (tick w))
      → Triple P (db_query q) Q R
  unfolding db_query
  Triple-query s q good bad = record { at = λ e w p. query_Post (e.fault w.calls) w p (q w) refl }
    where
      done : (w : World) → P w → (r : Result A) → q w ≡ r → Post Q R (r, tick w)
      done w p (ok a) eq = good w a p eq
      done w p (err x) eq = bad w p

      query_Post :
          (o : Option String) (w : World)
          → P w
          → (r : Result A) → q w ≡ r
          → Post Q R (query_unless o r, tick w)
      query_Post none w p r eq = done w p r eq
      query_Post (some x) w p r eq = bad w p

module _ {P : World → Type 0} {Q : Unit {0} → World → Type 0} {R : World → Type 0} where
  pub Triple-exec :
      (f : ℕ → World → World)
      → ((t : ℕ) (w : World) → P w → Q tt (tick (f t w)))
      → ((w : World) → P w → R (tick w))
      → Triple P (db_exec f) Q R
  unfolding db_exec
  Triple-exec f good bad = record {
    at = λ e w p. exec_Post (e.fault w.calls) (e.clock w.calls) w p;
  }
    where
      exec_Post : (o : Option String) (t : ℕ) (w : World) → P w → Post Q R (exec_unless o (f t) w)
      exec_Post none t w p = good t w p
      exec_Post (some x) t w p = bad w p

module _ {ℓ κ} {A : Type ℓ} {B : Type κ} {P : World → Type 0} {Q : A → World → Type 0}
    {R : World → Type 0} {S : B → World → Type 0} where
  pub Triple-bind :
      (m : Exec A) (f : A → Exec B)
      → Triple P m Q R
      → ((a : A) → Triple (Q a) (f a) S R)
      → Triple P (m >>= f) S R
  Triple-bind m f t k = record {
    at = λ e w p. bind_Post Q R S f k e (m e w).0 (m e w).1 (t.at e w p);
  }

module _ {ℓ} {A : Type ℓ} {P : World → Type 0} where
  pub Keeps-world : (m : Exec A) → Keeps P m → (e : Env) (w : World) → P w → P (m e w).1
  Keeps-world m k e w p = Post-world P (m e w).0 (m e w).1 (k.at e w p)

  pub Keeps-ignore : (m : Exec A) → Keeps P m → Keeps P (ignore m)
  unfolding ignore
  Keeps-ignore m k = record { at = λ e w p. Keeps-world m k e w p }

  pub Keeps-attempt : (m : Exec A) → Keeps P m → Keeps P (attempt m)
  unfolding attempt
  Keeps-attempt m k = record { at = λ e w p. Keeps-world m k e w p }

  -- The result is looked at by what follows.
  pub Triple-attempt :
      {Q : A → World → Type 0} {R S : World → Type 0} (m : Exec A)
      → Triple P m Q R
      → Triple P (attempt m) (λ r w. Post Q R (r, w)) S
  unfolding attempt
  Triple-attempt m t = record { at = λ e w p. t.at e w p }

  pub Keeps-pure : (a : A) → Keeps P (pure a)
  Keeps-pure a = Triple-pure a (λ w p. p)

  pub Keeps-raise : (x : Err) → Keeps P (raise {A = A} x)
  Keeps-raise x = Triple-raise x (λ w p. p)

  pub Keeps-query : IsStable P → (q : World → Result A) → Keeps P (db_query q)
  Keeps-query s q = Triple-query s q (λ w a p _. s.stable w p) s.stable

pub Keeps-exec :
    {P : World → Type 0} (s : IsStable P) (f : ℕ → World → World)
    → ((t : ℕ) (w : World) → P w → P (f t w))
    → Keeps P (db_exec f)
Keeps-exec s f keep = Triple-exec f (λ t w p. s.stable (f t w) (keep t w p)) s.stable

pub Keeps-new_uuid : {P : World → Type 0} → IsStable P → Keeps P new_uuid
unfolding new_uuid
Keeps-new_uuid s = record { at = λ e w p. s.stable w p }

pub Keeps-now : {P : World → Type 0} → Keeps P now
unfolding now
Keeps-now = record { at = λ e w p. p }
