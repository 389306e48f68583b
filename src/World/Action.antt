-- ===== src/World/Action.antt =====
-- Actions: what a method does to the world, and its result. What was written before an error
-- stays written, so the world comes back beside the error too.
use vpc_workflow_demo.Prelude.{ℕ, ◌+◌, ◌≡◌, String, Option, none, some}
use vpc_workflow_demo.World.Types.{
  Err, Result, ok, err, external, wrap, Env, World, IsFaultless, TaskDetail, HttpReply,
}

abbrev pub Exec {ℓ} : Type ℓ → Type ℓ
Exec A = Env → World → Result A × World

abbrev pub tick : World → World
tick w = record w { calls = w.calls + 1 }

module _ {ℓ} {A : Type ℓ} where
  unfoldable pub pure : A → Exec A
  pure a e w = (ok a, w)

  unfoldable pub raise : Err → Exec A
  raise x e w = (err x, w)

  -- `if err != nil { return ..., fmt.Errorf("...: %w", err) }`
  unfoldable pub wrap_result : String → Result A → Result A
  wrap_result s (ok a) = ok a
  wrap_result s (err x) = err (wrap s x)

  unfoldable pub or_wrap : String → Exec A → Exec A
  unfolding wrap_result
  or_wrap s m e w = let (r, w') = m e w in (wrap_result s r, w')

  -- `_ = f(...)`: the result is dropped.
  unfoldable pub ignore : Exec A → Exec (Unit {ℓ})
  ignore m e w = (ok tt, (m e w).1)

  -- The result is handed on as a value, to be looked at.
  unfoldable pub attempt : Exec A → Exec (Result A)
  attempt m e w = let (r, w') = m e w in (ok r, w')

module _ {ℓ κ} {A : Type ℓ} {B : Type κ} where
  abbrev pub continue : Result A → (A → Exec B) → Exec B
  continue (ok a) f e w = f a e w
  continue (err x) f e w = (err x, w)

  infixl 5 ◌>>=◌ ◌>>◌
  abbrev pub ◌>>=◌ : Exec A → (A → Exec B) → Exec B
  ◌>>=◌ m f e w = let (r, w') = m e w in continue r f e w'

  abbrev pub ◌>>◌ : Exec A → Exec B → Exec B
  m >> n = m >>= λ _. n

-- `uuid.New().String()`.
unfoldable pub new_uuid : Exec String
new_uuid e w = (ok (e.uuid w.calls), tick w)

-- `time.Now()`.
unfoldable pub now : Exec ℕ
now e w = (ok (e.clock w.calls), w)

unfoldable pub exec_unless : Option String → (World → World) → World → Result (Unit {0}) × World
exec_unless none f w = (ok tt, tick (f w))
exec_unless (some s) f w = (err (external s), tick w)

-- A statement that writes: `db.ExecContext`, with the time that it writes.
unfoldable pub db_exec : (ℕ → World → World) → Exec (Unit {0})
unfolding exec_unless
db_exec f e w = exec_unless (e.fault w.calls) (f (e.clock w.calls)) w

module _ {ℓ} {A : Type ℓ} where
  unfoldable pub query_unless : Option String → Result A → Result A
  query_unless none r = r
  query_unless (some s) r = err (external s)

  -- A statement that reads: `db.QueryContext`.
  unfoldable pub db_query : (World → Result A) → Exec A
  unfolding query_unless
  db_query q e w = (query_unless (e.fault w.calls) (q w), tick w)

module _ (e : Env) (h : IsFaultless e) where
  pub db_exec_ok :
      (f : ℕ → World → World) (w : World) → db_exec f e w ≡ (ok tt, tick (f (e.clock w.calls) w))
  unfolding db_exec
  db_exec_ok f w = rw h.no_fault

  pub db_query_ok {ℓ} :
      {A : Type ℓ} (q : World → Result A) (w : World) → db_query q e w ≡ (q w, tick w)
  unfolding db_query
  db_query_ok q w = rw h.no_fault

-- What the outside is like.
unfoldable pub ask : Exec Env
ask e w = (ok e, w)

-- `GetTaskInfo` of the inspector.
unfoldable pub task_info : String → String → Exec TaskDetail
task_info queue id e w = (e.task_info w.calls queue id, tick w)

run_unless : Option String → Result (Unit {0})
run_unless none = ok tt
run_unless (some s) = err (external s)

-- `RunTask` of the inspector.
unfoldable pub run_task : String → String → Exec (Unit {0})
unfolding run_unless
run_task queue id e w = (run_unless (e.run_task w.calls queue id), tick w)

unfoldable pub http_get : String → Exec HttpReply
http_get url e w = (e.http_get w.calls url, tick w)
