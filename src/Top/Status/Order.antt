-- ===== src/Top/Status/Order.antt =====
-- The order in which `computeOverallStatus` of internal/top/orchestrator/orchestrator.go reads its map.
use vpc_workflow_demo.Prelude.{
  ◌≡◌, refl, sym, ap, ◌∙◌, inl, inr, String, Bool, true, false, [], ◌∷◌, ◌=?◌, Bool-cases,
  text_eq_iff, arith, In,
}
use vpc_workflow_demo.Top.World.{AzDetail}
use vpc_workflow_demo.Top.Status.{has_running, overall_of, compute_overall_status}
use vpc_workflow_demo.Top.Status.Spec.{Details, any, all_running, note_all-Noted}

-- A zone has the status.
abbrev pub Has : String → Details → Type 0
Has s ds = (p : String × AzDetail) × In p ds × (p.1.status ≡ s)

has_running-eq : (ds : Details) → has_running ds ≡ any "running" ds
unfolding has_running
has_running-eq [] = refl
has_running-eq ((az, d) ∷ ds) = ground (arith, has_running-eq ds)

-- The code's answer in terms of which statuses there are.
pub overall-eq :
    (ds : Details)
    → compute_overall_status ds
      ≡ overall_of (any "running" ds) (record {
        has_failed = any "failed" ds;
        has_creating = any "creating" ds;
        has_interrupted = any "interrupted" ds;
        all_running = all_running ds;
      })
unfolding compute_overall_status overall_of
overall-eq ds =
    let h = note_all-Noted ds (record {
      has_failed = false;
      has_creating = false;
      has_interrupted = false;
      all_running = true;
    }) in
    rw (has_running-eq ds, h.failed, h.creating, h.interrupted, h.running) refl

any-Has : (s : String) (ds : Details) → any s ds ≡ true → Has s ds
any-Has s [] h = absurd (ground arith)
any-Has s ((az, d) ∷ ds) h = elim (Bool-cases (d.status =? s)) [
  | inl t ↦ ((az, d), inl refl, (text_eq_iff d.status s).0 t)
  | inr f ↦ let (p, m, e) = any-Has s ds (rw f at h) in (p, inr m, e)
]

Has-any :
    (s : String) (ds : Details) (p : String × AzDetail) → In p ds → p.1.status ≡ s → any s ds ≡ true
Has-any s [] p m e = elim m [ ]
Has-any s ((az, d) ∷ ds) p (inl here) e =
    let same : d.status ≡ s = ap (λ q. q.1.status) here ∙ e in
    rw ((text_eq_iff d.status s).1 same) refl
Has-any s ((az, d) ∷ ds) p (inr later) e = ground (arith, Has-any s ds p later e)

all_running-In :
    (ds : Details) (p : String × AzDetail)
    → all_running ds ≡ true
    → In p ds
    → p.1.status ≡ "running"
all_running-In [] p h m = elim m [ ]
all_running-In ((az, d) ∷ ds) p h (inl here) =
    ap (λ q. q.1.status) (sym here) ∙ (text_eq_iff d.status "running").0 (ground arith)
all_running-In ((az, d) ∷ ds) p h (inr later) = all_running-In ds p (ground arith) later

In-all_running :
    (ds : Details)
    → ((p : String × AzDetail) → In p ds → p.1.status ≡ "running")
    → all_running ds ≡ true
In-all_running [] h = refl
In-all_running ((az, d) ∷ ds) h =
    rw
      (
        (text_eq_iff d.status "running").1 (h (az, d) (inl refl)),
        In-all_running ds (λ p m. h p (inr m)),
      )
      refl

-- Every zone of the one map is a zone of the other, with the same details.
abbrev pub Within : Details → Details → Type 0
Within ds es = (p : String × AzDetail) → In p ds → In p es

Bool_ext : (a b : Bool) → (a ≡ true → b ≡ true) → (b ≡ true → a ≡ true) → a ≡ b
Bool_ext true b h k = sym (h refl)
Bool_ext false true h k = k refl
Bool_ext false false h k = refl

any-Within : (s : String) (ds es : Details) → Within ds es → any s ds ≡ true → any s es ≡ true
any-Within s ds es h t = let (p, m, e) = any-Has s ds t in Has-any s es p (h p m) e

-- The overall status does not depend on the order in which the map is read: two lists of the same
-- zones with the same details have the same overall status.
pub compute_overall_status-Within :
    (ds es : Details)
    → Within ds es
    → Within es ds
    → compute_overall_status ds ≡ compute_overall_status es
compute_overall_status-Within ds es h k =
    let same : (s : String) → any s ds ≡ any s es =
      λ s. Bool_ext (any s ds) (any s es) (any-Within s ds es h) (any-Within s es ds k) in
    let both : all_running ds ≡ all_running es =
      Bool_ext (all_running ds) (all_running es)
        (λ t. In-all_running es (λ p m. all_running-In ds p t (k p m)))
        (λ t. In-all_running ds (λ p m. all_running-In es p t (h p m))) in
    rw
      (
        overall-eq ds,
        overall-eq es,
        same "running",
        same "failed",
        same "creating",
        same "interrupted",
        both,
      )
      refl

-- What an overall status says of the zones.
pub data Overall (ds : Details) : String → Type 0 where
  running : ((p : String × AzDetail) → In p ds → p.1.status ≡ "running") → Overall ds "running"
  partial_running : Has "failed" ds → Has "running" ds → Overall ds "partial_running"
  failed : Has "failed" ds → (Has "running" ds → ⊥) → Overall ds "failed"
  interrupted : (Has "failed" ds → ⊥) → Has "interrupted" ds → Overall ds "interrupted"
  creating :
      (Has "failed" ds → ⊥) → (Has "interrupted" ds → ⊥) → Has "creating" ds → Overall ds "creating"
  none_known :
      (Has "failed" ds → ⊥)
      → (Has "interrupted" ds → ⊥)
      → (Has "creating" ds → ⊥)
      → (((p : String × AzDetail) → In p ds → p.1.status ≡ "running") → ⊥)
      → Overall ds "failed"

no_Has : (s : String) (ds : Details) → any s ds ≡ false → Has s ds → ⊥
no_Has s ds f h = ground (arith, Has-any s ds h.0 h.1 h.2)

-- The overall status is `running` if all zones run; otherwise `partial_running` if some zone failed
-- and some zone runs; otherwise `failed` if some zone failed; otherwise `interrupted` if some zone
-- is, otherwise `creating` if some zone is, and otherwise `failed`.
pub compute_overall_status-Overall : (ds : Details) → Overall ds (compute_overall_status ds)
unfolding overall_of
compute_overall_status-Overall ds = elim (Bool-cases (all_running ds)) [
  | inl t ↦ rw (overall-eq ds, t) (Overall.running (λ p m. all_running-In ds p t m))
  | inr a ↦ elim (Bool-cases (any "failed" ds)) [
    | inl b ↦ elim (Bool-cases (any "running" ds)) [
      | inl c ↦
          rw (overall-eq ds, a, b, c)
            (Overall.partial_running (any-Has "failed" ds b) (any-Has "running" ds c))
      | inr c ↦
          rw (overall-eq ds, a, b, c)
            (Overall.failed (any-Has "failed" ds b) (no_Has "running" ds c))
    ]
    | inr b ↦ elim (Bool-cases (any "interrupted" ds)) [
      | inl c ↦
          rw (overall-eq ds, a, b, c)
            (Overall.interrupted (no_Has "failed" ds b) (any-Has "interrupted" ds c))
      | inr c ↦ elim (Bool-cases (any "creating" ds)) [
        | inl d ↦
            rw (overall-eq ds, a, b, c, d)
              (Overall.creating (no_Has "failed" ds b) (no_Has "interrupted" ds c)
                (any-Has "creating" ds d))
        | inr d ↦
            rw (overall-eq ds, a, b, c, d)
              (Overall.none_known (no_Has "failed" ds b) (no_Has "interrupted" ds c)
                (no_Has "creating" ds d) (λ h. ground (arith, In-all_running ds h)))
      ]
    ]
  ]
]
