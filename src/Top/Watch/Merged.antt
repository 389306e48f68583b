-- ===== src/Top/Watch/Merged.antt =====
-- The details that a tick of the polls of internal/top/orchestrator/orchestrator.go has found, written over
-- those of a row, as maps: each key once.
use vpc_workflow_demo.Prelude.{
  ◌≡◌, ◌∙◌, ap, refl, sym, text_eq_refl, List, if◌then◌else◌, String, Bool, true, false, not, [],
  ◌∷◌, ◌=?◌, ◌||◌, ◌&&◌, Bool-cases, inl, inr, text_eq_iff, arith,
}
use vpc_workflow_demo.Top.World.{AzDetail, set_key}
use vpc_workflow_demo.Top.Status.Spec.{Details, all_running}
use vpc_workflow_demo.Top.Watch.{merge}

abbrev pub has : String → Details → Bool
has j [] = false
has j ((k, d) ∷ m) = (k =? j) || has j m

-- Each key once.
abbrev pub once : Details → Bool
once [] = true
once ((k, d) ∷ m) = not (has k m) && once m

-- The detail of a zone that runs, and nothing else.
abbrev pub is_plain : AzDetail → Bool
is_plain d = (d.status =? "running") && ((d.az_vpc_id =? "") && (d.error =? ""))

abbrev pub all_plain : Details → Bool
all_plain [] = true
all_plain ((k, d) ∷ m) = is_plain d && all_plain m

-- Each zone runs, or is one of `ds`.
abbrev pub covered : Details → Details → Bool
covered ds [] = true
covered ds ((k, d) ∷ m) = (is_plain d || has k ds) && covered ds m

flipped : (i k : String) → (i =? k) ≡ false → (k =? i) ≡ false
flipped i k f = elim (Bool-cases (k =? i)) [
  | inl t ↦
      let same : k ≡ i = (text_eq_iff k i).0 t in
      absurd (ground (arith, f, (text_eq_iff i k).1 (sym same)))
  | inr g ↦ g
]

pub has-set_key :
    (j k : String) (d : AzDetail) (m : Details) → has j (set_key k d m) ≡ ((k =? j) || has j m)
unfolding set_key
has-set_key j k d [] = refl
has-set_key j k d ((i, c) ∷ m) = elim (Bool-cases (i =? k)) [
  | inl t ↦ let same : i ≡ k = (text_eq_iff i k).0 t in rw (t, same) (ground arith)
  | inr f ↦ rw (f, has-set_key j k d m) (ground arith)
]

pub once-set_key :
    (k : String) (d : AzDetail) (m : Details) → once m ≡ true → once (set_key k d m) ≡ true
unfolding set_key
once-set_key k d [] h = refl
once-set_key k d ((i, c) ∷ m) h = elim (Bool-cases (i =? k)) [
  | inl t ↦ let same : i ≡ k = (text_eq_iff i k).0 t in rw t (rw same at h)
  | inr f ↦
      let rest = once-set_key k d m (ground (arith, h)) in
      let flip : (k =? i) ≡ false = flipped i k f in
      rw (f, has-set_key i k d m, flip) (ground (arith, h, rest))
]

covered-skip :
    (k : String) (d : AzDetail) (ds m : Details)
    → has k m ≡ false
    → covered ((k, d) ∷ ds) m ≡ true
    → covered ds m ≡ true
covered-skip k d ds [] out h = refl
covered-skip k d ds ((i, c) ∷ m) out h = elim (Bool-cases (i =? k)) [
  | inl t ↦ absurd (ground (arith, out, t))
  | inr f ↦
      let rest = covered-skip k d ds m (ground (arith, out)) (ground (arith, h)) in
      let flip : (k =? i) ≡ false = flipped i k f in ground (arith, h, rest, flip)
]

covered-set_key :
    (k : String) (d : AzDetail) (ds m : Details)
    → is_plain d ≡ true
    → once m ≡ true
    → covered ((k, d) ∷ ds) m ≡ true
    → covered ds (set_key k d m) ≡ true
unfolding set_key
covered-set_key k d ds [] good o h = ground (arith, good)
covered-set_key k d ds ((i, c) ∷ m) good o h = elim (Bool-cases (i =? k)) [
  | inl t ↦
      let same : i ≡ k = (text_eq_iff i k).0 t in
      let apart : has i m ≡ false = ground (arith, o) in
      let out : has k m ≡ false = rw same at apart in
      rw t (ground (arith, good, covered-skip k d ds m out (ground (arith, h))))
  | inr f ↦
      let rest = covered-set_key k d ds m good (ground (arith, o)) (ground (arith, h)) in
      let flip : (k =? i) ≡ false = flipped i k f in rw f (ground (arith, h, rest, flip))
]

pub covered-all_plain : (m : Details) → covered [] m ≡ true → all_plain m ≡ true
covered-all_plain [] h = refl
covered-all_plain ((k, d) ∷ m) h = ground (arith, h, covered-all_plain m (ground (arith, h)))

-- Running details written over a map whose other zones run.
pub all_plain-merge :
    (ds m : Details)
    → all_plain ds ≡ true
    → once m ≡ true
    → covered ds m ≡ true
    → all_plain (merge ds m) ≡ true
unfolding merge
all_plain-merge [] m r o h = covered-all_plain m h
all_plain-merge ((k, d) ∷ ds) m r o h =
    all_plain-merge ds (set_key k d m) (ground (arith, r)) (once-set_key k d m o)
      (covered-set_key k d ds m (ground (arith, r)) o h)

pub all_plain-set_key :
    (k : String) (d : AzDetail) (m : Details)
    → is_plain d ≡ true
    → all_plain m ≡ true
    → all_plain (set_key k d m) ≡ true
unfolding set_key
all_plain-set_key k d [] good h = ground (arith, good)
all_plain-set_key k d ((i, c) ∷ m) good h = elim (Bool-cases (i =? k)) [
  | inl t ↦ rw t (ground (arith, good, h))
  | inr f ↦
      let rest = all_plain-set_key k d m good (ground (arith, h)) in rw f (ground (arith, h, rest))
]

pub covered-put :
    (k : String) (d : AzDetail) (ds m : Details)
    → has k ds ≡ true
    → covered ds m ≡ true
    → covered ds (set_key k d m) ≡ true
unfolding set_key
covered-put k d ds [] good h = ground (arith, good)
covered-put k d ds ((i, c) ∷ m) good h = elim (Bool-cases (i =? k)) [
  | inl t ↦ rw t (ground (arith, good, h))
  | inr f ↦
      let rest = covered-put k d ds m good (ground (arith, h)) in rw f (ground (arith, h, rest))
]

pub plain-running : (m : Details) → all_plain m ≡ true → all_running m ≡ true
plain-running [] h = refl
plain-running ((k, d) ∷ m) h = ground (arith, h, plain-running m (ground (arith, h)))

-- The keys of a map, in the order in which they were first written.
abbrev pub keys : Details → List String
keys [] = []
keys ((k, d) ∷ m) = k ∷ keys m

abbrev pub with_key : String → List String → List String
with_key k [] = k ∷ []
with_key k (j ∷ ks) = let rest = with_key k ks in if j =? k then k ∷ ks else j ∷ rest

pub keys-set_key :
    (k : String) (d : AzDetail) (m : Details) → keys (set_key k d m) ≡ with_key k (keys m)
unfolding set_key
keys-set_key k d [] = refl
keys-set_key k d ((i, c) ∷ m) = elim (Bool-cases (i =? k)) [
  | inl t ↦ rw t refl
  | inr f ↦ rw (f, keys-set_key k d m) refl
]

-- A key that is there is written over.
keys-set_key-has :
    (k : String) (d : AzDetail) (m : Details) → has k m ≡ true → keys (set_key k d m) ≡ keys m
unfolding set_key
keys-set_key-has k d [] h = absurd (ground (arith, h))
keys-set_key-has k d ((i, c) ∷ m) h = elim (Bool-cases (i =? k)) [
  | inl t ↦ let same : k ≡ i = sym ((text_eq_iff i k).0 t) in rw t (ap (λ x. x ∷ keys m) same)
  | inr f ↦ rw f (ap (λ l. i ∷ l) (keys-set_key-has k d m (ground (arith, h, f))))
]

pub keys-merge :
    (ds m : Details)
    → ((j : String) → has j ds ≡ true → has j m ≡ true)
    → keys (merge ds m) ≡ keys m
unfolding merge
keys-merge [] m h = refl
keys-merge ((k, d) ∷ ds) m h =
    keys-merge ds (set_key k d m)
      (λ j g. rw (has-set_key j k d m) (ground (arith, h j (ground (arith, g)))))
    ∙ keys-set_key-has k d m (h k (rw (text_eq_refl k) refl))

-- Two maps of the same keys whose zones all run are the same.
pub all_plain_unique :
    (m n : Details) → all_plain m ≡ true → all_plain n ≡ true → keys m ≡ keys n → m ≡ n
all_plain_unique m n h k same = filled m h ∙ ap fill same ∙ sym (filled n k)
  where
    plain : AzDetail
    plain = record { status = "running"; az_vpc_id = ""; error = "" }

    fill : List String → Details
    fill [] = []
    fill (j ∷ js) = (j, plain) ∷ fill js

    is_it : (d : AzDetail) → is_plain d ≡ true → d ≡ plain
    is_it d g =
        let a = (text_eq_iff d.status "running").0 (ground (arith, g)) in
        let b = (text_eq_iff d.az_vpc_id "").0 (ground (arith, g)) in
        let c = (text_eq_iff d.error "").0 (ground (arith, g)) in
        λ i. record { status = a i; az_vpc_id = b i; error = c i }

    filled : (m : Details) → all_plain m ≡ true → m ≡ fill (keys m)
    filled [] g = refl
    filled ((j, d) ∷ m) g = λ i. (j, is_it d (ground (arith, g)) i) ∷ filled m (ground (arith, g)) i
