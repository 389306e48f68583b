-- ===== src/Az/Deleted.antt =====
-- When the delete methods of internal/az/orchestrator/orchestrator.go succeed.
use vpc_workflow_demo.Models.{VpcResource, vpc, is_running}
use vpc_workflow_demo.World.{
  Rows, Exec, Result, World, ok, Err, err, external, tick, fail, wrap, no_rows, panic, Env,
}
use mathlib.Core.Path.{subst}
use vpc_workflow_demo.Prelude.{
  ℕ, String, ◌≡◌, Bool, count_where, find_where, some, false, true, refl, Option, not, ltb, none,
  arith, ◌∙◌,
}
use vpc_workflow_demo.Dao.Table
use vpc_workflow_demo.Dao.Vpc
use vpc_workflow_demo.Az.Orchestrator.{AzOrchestrator, or_missing, missing_as}
use vpc_workflow_demo.World.Hoare.{
  Triple, Post, IsStable, Triple-query, Triple-bind, Triple-raise, Triple-pure, Triple-or_wrap,
  Triple-from,
}
use vpc_workflow_demo.Az.Delete.{delete_vpc, check_deletable, guard}

-- A VPC that may be deleted by its name: it runs, and no subnet that is not deleted names it.
pub record IsDeletable (o : AzOrchestrator) (name : String) (w : World) : Type 0 where
  pub row : VpcResource
  pub found : find_where (Table.has_name name o.az) w.rows.vpcs ≡ some row
  pub runs : is_running row.status ≡ true
  pub empty : count_where (Vpc.is_live_subnet_of name o.az) w.rows.subnets ≡ 0

ok_injective {ℓ} : {A : Type ℓ} (a b : A) → ok a ≡ ok b → a ≡ b
ok_injective a b h = cc

-- Nothing is asked of the world after a failure.
abbrev pub Any : World → Type 0
Any w = Unit

always_Post {ℓ} :
    {A : Type ℓ} (C : Type 0) (r : Result A) (w : World) → C → Post (λ _ _. C) Any (r, w)
always_Post C (ok a) w c = c
always_Post C (err x) w c = tt

pub Triple-always {ℓ} : {A : Type ℓ} {C : Type 0} (m : Exec A) → Triple (λ _. C) m (λ _ _. C) Any
Triple-always {C = C} m = record { at = λ e w c. always_Post C (m e w).0 (m e w).1 c }

returned {ℓ} :
    {A : Type ℓ} (C : Type 0) (r : Result A) (w : World) (a : A)
    → r ≡ ok a
    → Post (λ _ _. C) Any (r, w)
    → C
returned C (ok b) w a h c = c
returned C (err x) w a h c = absurd (cc h)

missing_Post {ℓ} :
    {A : Type ℓ} (Q : A → World → Type 0) (x y : String) (r : Result A) (w : World)
    → Post Q Any (r, w)
    → Post Q Any (missing_as x y r, w)
unfolding missing_as
missing_Post Q x y (ok a) w h = h
missing_Post Q x y (err no_rows) w h = h
missing_Post Q x y (err (external s)) w h = h
missing_Post Q x y (err (fail s)) w h = h
missing_Post Q x y (err (wrap s z)) w h = h
missing_Post Q x y (err panic) w h = h

pub Triple-or_missing {ℓ} :
    {A : Type ℓ} {P : World → Type 0} {Q : A → World → Type 0} (x y : String) (m : Exec A)
    → Triple P m Q Any
    → Triple P (or_missing x y m) Q Any
unfolding or_missing
Triple-or_missing {Q = Q} x y m t = record {
  at = λ e w p. missing_Post Q x y (m e w).0 (m e w).1 (t.at e w p);
}

Triple-guard :
    {P : World → Type 0} (b : Bool) (x : Err) → Triple P (guard b x) (λ _ w. (b ≡ false) × P w) Any
unfolding guard
Triple-guard true x = Triple-raise x (λ w p. tt)
Triple-guard false x = Triple-pure tt (λ w p. (refl, p))

frame_Post {ℓ} :
    {A : Type ℓ} (C : Type 0) (Q : A → World → Type 0) (r : Result A) (w : World)
    → C
    → Post Q Any (r, w)
    → Post (λ a w. C × Q a w) Any (r, w)
frame_Post C Q (ok a) w c h = (c, h)
frame_Post C Q (err x) w c h = tt

-- What is known already stays known.
pub Triple-frame {ℓ} :
    {A : Type ℓ} {P : World → Type 0} {Q : A → World → Type 0} (C : Type 0) (m : Exec A)
    → Triple P m Q Any
    → Triple (λ w. C × P w) m (λ a w. C × Q a w) Any
Triple-frame {Q = Q} C m t = record {
  at = λ e w p. frame_Post C Q (m e w).0 (m e w).1 p.0 (t.at e w p.1);
}

pub one_ok : (f : Option VpcResource) (v : VpcResource) → Table.one f ≡ ok v → f ≡ some v
unfolding Table.one
one_ok none v h = cc
one_ok (some u) v h = cc

-- The rows have not changed since.
record SameRows (r : Rows) (w : World) : Type 0 where
  same : w.rows ≡ r

SameRows-stable : (r : Rows) → IsStable (SameRows r)
SameRows-stable r = record { stable = λ w h. record { same = h.same } }

module _ (o : AzOrchestrator) (name : String) (w₀ : World) where
  FoundRow : VpcResource → World → Type 0
  FoundRow v w = (find_where (Table.has_name name o.az) w₀.rows.vpcs ≡ some v) × SameRows w₀.rows w

  Subnets : ℕ → World → Type 0
  Subnets n w = count_where (Vpc.is_live_subnet_of name o.az) w₀.rows.subnets ≡ n

  get_by_name-FoundRow : Triple (SameRows w₀.rows) (Table.get_by_name vpc name o.az) FoundRow Any
  unfolding Table.get_by_name Table.table FoundRow
  get_by_name-FoundRow = Triple-query (SameRows-stable w₀.rows) _ answered (λ w h. tt)
    where
      answered :
          (w : World) (v : VpcResource)
          → SameRows w₀.rows w
          → Table.one (find_where (Table.has_name name o.az) w.rows.vpcs) ≡ ok v
          → (find_where (Table.has_name name o.az) w₀.rows.vpcs ≡ some v)
            × SameRows w₀.rows (tick w)
      answered w v h eq = (
        subst (λ (rows : Rows). find_where (Table.has_name name o.az) rows.vpcs ≡ some v) h.same
            (one_ok _ v eq),
        record { same = h.same },
      )

  count_subnets-Subnets : Triple (SameRows w₀.rows) (Vpc.count_subnets name o.az) Subnets Any
  unfolding Vpc.count_subnets Subnets
  count_subnets-Subnets =
      Triple-query (SameRows-stable w₀.rows) _
        (λ w n h eq.
          subst (λ (rows : Rows). count_where (Vpc.is_live_subnet_of name o.az) rows.subnets ≡ n)
            h.same (ok_injective _ n eq))
        (λ w h. tt)

  check_deletable-IsDeletable :
      (v : VpcResource)
      → Triple
          (FoundRow v)
          (check_deletable o v (Vpc.count_subnets name o.az))
          (λ _ _. IsDeletable o name w₀)
          Any
  unfolding check_deletable FoundRow Subnets
  check_deletable-IsDeletable v =
      Triple-bind _ _ (Triple-guard {P = FoundRow v} (not (is_running v.status)) _) (λ _.
        Triple-bind
          {Q = λ n _.
            (not (is_running v.status) ≡ false)
            × ((find_where (Table.has_name name o.az) w₀.rows.vpcs ≡ some v) × Subnets n w₀)}
          _ _
          (Triple-or_wrap _ _ (
            Triple-frame (not (is_running v.status) ≡ false) _ (
              Triple-frame (find_where (Table.has_name name o.az) w₀.rows.vpcs ≡ some v) _
                count_subnets-Subnets)))
          (λ n.
            Triple-bind _ _
              (Triple-guard
                {P = λ _.
                  (not (is_running v.status) ≡ false)
                  × ((find_where (Table.has_name name o.az) w₀.rows.vpcs ≡ some v) × Subnets n w₀)}
                (ltb 0 n) _)
              (λ _.
                Triple-from _
                  (λ w h. record {
                    row = v;
                    found = h.1.1.0;
                    runs = ground (arith, h.1.0);
                    empty = h.1.1.1 ∙ ground (arith, h.0);
                  })
                  (Triple-always _))))

-- If `DeleteVPC` answers no error, the VPC was there and running, and it had no subnet that was not
-- deleted, whatever the zone's firewall service answered.
pub delete_vpc-IsDeletable :
    (o : AzOrchestrator) (name : String) (e : Env) (w : World)
    → (delete_vpc o name e w).0 ≡ ok tt
    → IsDeletable o name w
unfolding delete_vpc
delete_vpc-IsDeletable o name e w h =
    returned (IsDeletable o name w) (delete_vpc o name e w).0 (delete_vpc o name e w).1 tt h (
      (Triple-bind {P = SameRows w.rows} _ _
          (Triple-or_missing _ _ _ (get_by_name-FoundRow o name w))
          (λ v. Triple-bind _ _ (check_deletable-IsDeletable o name w v) (λ _. Triple-always _))).at
        e w (record { same = refl }))
