-- ===== src/Top/World/Action.antt =====
-- Actions on the state of the top layer, as those of the zones.
use vpc_workflow_demo.Prelude.{
  ℕ, String, List, [], ◌∷◌, Option, none, some, ◌+◌, if◌then◌else◌, ◌=?◌,
}
use vpc_workflow_demo.World.{Err, Result, ok, err, external, wrap}
use vpc_workflow_demo.Top.World.Types.{Top, TopEnv}

abbrev pub Act {ℓ} : Type ℓ → Type ℓ
Act A = TopEnv → Top → Result A × Top

abbrev pub tick : Top → Top
tick w = record w { calls = w.calls + 1 }

module _ {ℓ} {A : Type ℓ} where
  unfoldable pub pure : A → Act A
  pure a e w = (ok a, w)

  -- The result is handed on as a value, to be looked at.
  unfoldable pub attempt : Act A → Act (Result A)
  attempt m e w = let (r, w') = m e w in (ok r, w')

  -- The result of a call to the outside that changes none of the tables.
  unfoldable pub asked : (TopEnv → ℕ → Result A) → Act (Result A)
  asked q e w = (ok (q e w.calls), tick w)

  unfoldable pub query_unless : Option String → Result A → Result A
  query_unless none r = r
  query_unless (some s) r = err (external s)

  -- A statement that reads.
  unfoldable pub db_query : (Top → Result A) → Act A
  unfolding query_unless
  db_query q e w = (query_unless (e.fault w.calls) (q w), tick w)

  unfoldable pub raise : Err → Act A
  raise x e w = (err x, w)

  unfoldable pub wrap_result : String → Result A → Result A
  wrap_result s (ok a) = ok a
  wrap_result s (err x) = err (wrap s x)

  -- `if err != nil { return ..., fmt.Errorf("...: %v", err) }`
  unfoldable pub or_wrap : String → Act A → Act A
  unfolding wrap_result
  or_wrap s m e w = let (r, w') = m e w in (wrap_result s r, w')

  -- A call to the outside that changes none of the tables.
  unfoldable pub call : (TopEnv → ℕ → Result A) → Act A
  call q e w = (q e w.calls, tick w)

-- `uuid.New().String()`
unfoldable pub new_uuid : Act String
new_uuid e w = (ok (e.uuid w.calls), tick w)

-- `time.Now().Unix()`
unfoldable pub now : Act ℕ
now e w = (ok (e.clock w.calls), w)

-- The result of an action is dropped.
unfoldable pub ignore {ℓ} : {A : Type ℓ} → Act A → Act (Unit {0})
ignore m e w = (ok tt, (m e w).1)

module _ {ℓ κ} {A : Type ℓ} {B : Type κ} where
  abbrev pub continue : Result A → (A → Act B) → Act B
  continue (ok a) f e w = f a e w
  continue (err x) f e w = (err x, w)

  infixl 5 ◌>>=◌ ◌>>◌
  abbrev pub ◌>>=◌ : Act A → (A → Act B) → Act B
  ◌>>=◌ m f e w = let (r, w') = m e w in continue r f e w'

  abbrev pub ◌>>◌ : Act A → Act B → Act B
  m >> n = m >>= λ _. n

unfoldable pub exec_unless : Option String → (Top → Top) → Top → Result (Unit {0}) × Top
exec_unless none f w = (ok tt, tick (f w))
exec_unless (some s) f w = (err (external s), tick w)

-- A statement that writes, with the time that it writes.
unfoldable pub db_exec : (ℕ → Top → Top) → Act (Unit {0})
unfolding exec_unless
db_exec f e w = exec_unless (e.fault w.calls) (f (e.clock w.calls)) w

-- `BeginTx`, `Commit`: a statement of the database that can fail, and writes nothing by itself.
unfoldable pub db_call : Act (Unit {0})
unfolding db_exec
db_call = db_exec (λ _ w. w)

-- A write to a map.
unfoldable pub set_key {ℓ} : {A : Type ℓ} → String → A → List (String × A) → List (String × A)
set_key k a [] = (k, a) ∷ []
set_key k a ((j, b) ∷ m) = if j =? k then (k, a) ∷ m else (j, b) ∷ set_key k a m
