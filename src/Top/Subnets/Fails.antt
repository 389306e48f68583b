-- ===== src/Top/Subnets/Fails.antt =====
-- `RegisterSubnet` of internal/top/vpc/dao/dao.go, when it does not succeed.
use vpc_workflow_demo.Prelude.{ℕ, Option, some, String, none, inl, inr, ◌⊎◌}
use vpc_workflow_demo.World.{Result, ok, err}
use vpc_workflow_demo.Top.World.{
  Act, Top, TopEnv, SubnetRegistry, raise, db_call, db_exec, exec_unless, continue, ◌>>=◌,
}
use vpc_workflow_demo.Top.Rules.{Keeps, IsStable, Keeps-exec, Keeps-query}
use vpc_workflow_demo.Top.Subnets.{register_subnet, commit_rows, both_rows, insert_allowed}

abbrev pub IsOk : Result (Unit {0}) → Type 0
IsOk (ok _) = Unit {0}
IsOk (err _) = ⊥

-- The action succeeds, or keeps `P`.
pub record Fails (P : Top → Type 0) (m : Act (Unit {0})) : Type 0 where
  pub at : (e : TopEnv) (w : Top) → P w → IsOk (m e w).0 ⊎ P (m e w).1

Fails-bind :
    {P : Top → Type 0} (m : Act (Unit {0})) (f : Unit {0} → Act (Unit {0}))
    → Keeps P m
    → ((a : Unit {0}) → Fails P (f a))
    → Fails P (m >>= f)
Fails-bind {P} m f h k = record { at = λ e w p. continued (m e w).0 e (m e w).1 (h.at e w p) }
  where
    continued :
        (r : Result (Unit {0})) (e : TopEnv) (w : Top)
        → P w
        → IsOk (continue r f e w).0 ⊎ P (continue r f e w).1
    continued (ok a) e w p = (k a).at e w p
    continued (err x) e w p = inr p

module _ {P : Top → Type 0} (s : IsStable P) where
  db_call-Keeps : Keeps P db_call
  unfolding db_call
  db_call-Keeps = Keeps-exec s _ (λ t w p. p)

  -- The last statement of a transaction.
  ended :
      (f : Top → Top) (o : Option String) (w : Top)
      → P w
      → IsOk (exec_unless o f w).0 ⊎ P (exec_unless o f w).1
  unfolding exec_unless
  ended f none w p = inl tt
  ended f (some x) w p = inr (s.stable w p)

  insert_allowed-Keeps : (x y : Option SubnetRegistry) → Keeps P (insert_allowed x y)
  unfolding insert_allowed
  insert_allowed-Keeps none none = db_call-Keeps
  insert_allowed-Keeps none (some y) = Keeps-query s _
  insert_allowed-Keeps (some x) y = db_call-Keeps

  -- A panic is no write.
  commit_rows-Fails :
      (x : SubnetRegistry) (id : String) (r : Option (ℕ × ℕ)) → Fails P (commit_rows x id r)
  unfolding commit_rows raise db_exec
  commit_rows-Fails x id none = record { at = λ e w p. inr p }
  commit_rows-Fails x id (some r) = Fails-bind _ _ db_call-Keeps (λ _. record {
    at = λ e w p. ended (both_rows r x id (e.clock w.calls)) (e.fault w.calls) w p;
  })

  pub register_subnet-Fails : (x : SubnetRegistry) → Fails P (register_subnet x)
  unfolding register_subnet
  register_subnet-Fails x = record {
    at = λ e w p.
        (Fails-bind _ _ db_call-Keeps
            (λ _. Fails-bind _ _ (insert_allowed-Keeps _ _) (λ _. commit_rows-Fails x _ _))).at
          e w p;
  }
