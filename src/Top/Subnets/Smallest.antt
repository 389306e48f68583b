-- ===== src/Top/Subnets/Smallest.antt =====
-- The zone that `FindZoneByIP` of internal/top/vpc/dao/dao.go finds.
use vpc_workflow_demo.World.{ok}
use vpc_workflow_demo.Prelude.{
  ℕ, ◌-◌, ◌≤◌, ◌≡◌, refl, sym, inl, inr, Bool, true, false, Option, none, some, List, [], ◌∷◌, ltb,
  Bool-cases, arith, All, In, order_by, insert_by, select, first, ap, In-select, ◌∙◌, In-order_by,
  All-lookup, String,
}
use mathlib.Core.Path.{subst}
use vpc_workflow_demo.Top.World.{
  CidrZoneMapping, ZoneInfo, Top, TopEnv, IsCalm, tick, db_query, query_unless,
}
use vpc_workflow_demo.Top.Subnets.{info_of, holds, zone_info, smaller, find_zone_by_ip, find_zone}

module _ {A : Type 0} (key : A → ℕ) where
  abbrev before : A → A → Bool
  before a b = ltb (key a) (key b)

  abbrev AtMost : ℕ → List A → Type 0
  AtMost n = All (λ a. n ≤ key a)

  AtMost-weaken : (m n : ℕ) (l : List A) → m ≤ n → AtMost n l → AtMost m l
  AtMost-weaken m n [] h k = tt
  AtMost-weaken m n (x ∷ xs) h k = (omega (arith, h, k.0), AtMost-weaken m n xs h k.1)

  -- The head of the first list is a least element of the second.
  abbrev Least : List A → List A → Type 0
  Least [] ys = ys ≡ []
  Least (z ∷ zs) ys = AtMost (key z) ys

  Least-insert_by : (x : A) (l ys : List A) → Least l ys → Least (insert_by before x l) (x ∷ ys)
  unfolding insert_by
  Least-insert_by x [] ys h = (omega arith, subst (λ l. AtMost (key x) l) (sym h) tt)
  Least-insert_by x (z ∷ zs) ys h = elim (Bool-cases (before z x)) [
    | inl t ↦ rw t (ground (arith, t), h)
    | inr f ↦ rw f (omega arith, AtMost-weaken (key x) (key z) ys (ground (arith, f)) h)
  ]

  Least-order_by : (l : List A) → Least (order_by before l) l
  unfolding order_by
  Least-order_by [] = refl
  Least-order_by (x ∷ xs) = Least-insert_by x (order_by before xs) xs (Least-order_by xs)

abbrev width : CidrZoneMapping → ℕ
width m = m.cidr_end - m.cidr_start

-- What the query finds.
pub data Found (ip : ℕ) (ms : List CidrZoneMapping) : Option ZoneInfo → Type 0 where
  nothing : ((m : CidrZoneMapping) → In m ms → holds ip m ≡ false) → Found ip ms none
  smallest :
      (m : CidrZoneMapping)
      → In m ms
      → holds ip m ≡ true
      → ((n : CidrZoneMapping)
          → In n ms
          → holds ip n ≡ true
          → m.cidr_end - m.cidr_start ≤ n.cidr_end - n.cidr_start)
      → Found ip ms (some (zone_info m))

select-In :
    {A : Type 0} (p : A → Bool) (l : List A) (a : A) → In a l → p a ≡ true → In a (select p l)
unfolding select
select-In p [] a m h = elim m [ ]
select-In p (x ∷ xs) a (inl e) h = let hit : p x ≡ true = ap p e ∙ h in rw hit (inl e)
select-In p (x ∷ xs) a (inr m) h = elim (Bool-cases (p x)) [
  | inl t ↦ rw t (inr (select-In p xs a m h))
  | inr f ↦ rw f (select-In p xs a m h)
]

first-Found :
    (ip : ℕ) (ms l : List CidrZoneMapping)
    → order_by smaller (select (holds ip) ms) ≡ l
    → Least width l (select (holds ip) ms)
    → Found ip ms (info_of (first l))
first-Found ip ms [] e h = Found.nothing (λ m there. elim (Bool-cases (holds ip m)) [
  | inl t ↦
      let inside : In m (select (holds ip) ms) = select-In (holds ip) ms m there t in
      absurd (subst (λ l. In m l) h inside)
  | inr f ↦ f
])
first-Found ip ms (z ∷ zs) e h =
    let sorted : In z (order_by smaller (select (holds ip) ms)) =
      subst (λ l. In z l) (sym e) (inl refl) in
    let (there, hit) =
      In-select (holds ip) ms z (In-order_by smaller (select (holds ip) ms) z sorted) in
    Found.smallest z there hit (λ n m t.
      All-lookup (λ a. width z ≤ width a) (select (holds ip) ms) n h
        (select-In (holds ip) ms n m t))

-- If the text is an address of IPv4 and no statement fails, `FindZoneByIP` changes nothing and
-- answers the zone of a mapping whose range holds the address, and no smaller range in the table
-- does; or none, if no range in the table holds it.
pub find_zone_by_ip-Found :
    (e : TopEnv) (text : String) (ip : ℕ) (w : Top)
    → IsCalm e
    → e.parse_ip text ≡ some ip
    → (r : Option ZoneInfo) × (find_zone_by_ip text e w ≡ (ok r, tick w)) × Found ip w.mappings r
unfolding find_zone_by_ip find_zone db_query query_unless
find_zone_by_ip-Found e text ip w calm parsed = (
  info_of (first (order_by smaller (select (holds ip) w.mappings))),
  rw (parsed, calm.no_fault) refl,
  first-Found ip w.mappings (order_by smaller (select (holds ip) w.mappings)) refl
      (Least-order_by width (select (holds ip) w.mappings)),
)
