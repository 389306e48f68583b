-- ===== src/Top/Status/Spec.antt =====
-- What `computeOverallStatus` of internal/top/orchestrator/orchestrator.go promises.
use vpc_workflow_demo.Prelude.{
  ◌≡◌, sym, inl, inr, String, Bool, true, false, List, [], ◌∷◌, ◌=?◌, ◌||◌, ◌&&◌, Bool-cases,
  text_eq_iff, arith,
}
use mathlib.Core.Path.{subst}
use vpc_workflow_demo.Top.World.{AzDetail}
use vpc_workflow_demo.Top.Status.{Flags, note_status, note_all}

abbrev pub Details : Type 0
Details = List (String × AzDetail)

-- Some zone has the status.
abbrev pub any : String → Details → Bool
any s [] = false
any s ((az, d) ∷ ds) = (d.status =? s) || any s ds

abbrev pub all_running : Details → Bool
all_running [] = true
all_running ((az, d) ∷ ds) = (d.status =? "running") && all_running ds

-- The statuses that the code knows, and the others.
data StatusCase (s : String) : Type 0 where
  is_running : s ≡ "running" → StatusCase s
  is_failed : s ≡ "failed" → StatusCase s
  is_creating : s ≡ "creating" → StatusCase s
  is_interrupted : s ≡ "interrupted" → StatusCase s
  is_other :
      (s =? "running") ≡ false
      → (s =? "failed") ≡ false
      → (s =? "creating") ≡ false
      → (s =? "interrupted") ≡ false
      → StatusCase s

status_case : (s : String) → StatusCase s
status_case s = elim (Bool-cases (s =? "running")) [
  | inl t ↦ is_running ((text_eq_iff s "running").0 t)
  | inr a ↦ elim (Bool-cases (s =? "failed")) [
    | inl t ↦ is_failed ((text_eq_iff s "failed").0 t)
    | inr b ↦ elim (Bool-cases (s =? "creating")) [
      | inl t ↦ is_creating ((text_eq_iff s "creating").0 t)
      | inr c ↦ elim (Bool-cases (s =? "interrupted")) [
        | inl t ↦ is_interrupted ((text_eq_iff s "interrupted").0 t)
        | inr d ↦ is_other a b c d
      ]
    ]
  ]
]

-- What the loop has noted.
pub record Noted (f g : Flags) (ds : Details) : Type 0 where
  pub failed : g.has_failed ≡ (f.has_failed || any "failed" ds)
  pub creating : g.has_creating ≡ (f.has_creating || any "creating" ds)
  pub interrupted : g.has_interrupted ≡ (f.has_interrupted || any "interrupted" ds)
  pub running : g.all_running ≡ (f.all_running && all_running ds)

-- What one status does to the flags.
record Step (s : String) (f g : Flags) : Type 0 where
  failed : g.has_failed ≡ (f.has_failed || (s =? "failed"))
  creating : g.has_creating ≡ (f.has_creating || (s =? "creating"))
  interrupted : g.has_interrupted ≡ (f.has_interrupted || (s =? "interrupted"))
  running : g.all_running ≡ (f.all_running && (s =? "running"))

note_status-Step : (s : String) (f : Flags) → Step s f (note_status s f)
unfolding note_status
note_status-Step s f = elim (status_case s) [
  | is_running t ↦
      subst (λ x. Step x f (note_status x f)) (sym t)
        (record {
          failed = ground arith;
          creating = ground arith;
          interrupted = ground arith;
          running = ground arith;
        })
  | is_failed t ↦
      subst (λ x. Step x f (note_status x f)) (sym t)
        (record {
          failed = ground arith;
          creating = ground arith;
          interrupted = ground arith;
          running = ground arith;
        })
  | is_creating t ↦
      subst (λ x. Step x f (note_status x f)) (sym t)
        (record {
          failed = ground arith;
          creating = ground arith;
          interrupted = ground arith;
          running = ground arith;
        })
  | is_interrupted t ↦
      subst (λ x. Step x f (note_status x f)) (sym t)
        (record {
          failed = ground arith;
          creating = ground arith;
          interrupted = ground arith;
          running = ground arith;
        })
  | is_other a b c d ↦ record {
    failed = ground (arith, a, b, c, d);
    creating = ground (arith, a, b, c, d);
    interrupted = ground (arith, a, b, c, d);
    running = ground (arith, a, b, c, d);
  }
]

pub note_all-Noted : (ds : Details) (f : Flags) → Noted f (note_all ds f) ds
unfolding note_all
note_all-Noted [] f = record {
  failed = ground arith;
  creating = ground arith;
  interrupted = ground arith;
  running = ground arith;
}
note_all-Noted ((az, d) ∷ ds) f =
    let h = note_all-Noted ds (note_status d.status f) in
    let k = note_status-Step d.status f in
    record {
      failed = ground (arith, h.failed, k.failed);
      creating = ground (arith, h.creating, k.creating);
      interrupted = ground (arith, h.interrupted, k.interrupted);
      running = ground (arith, h.running, k.running);
    }
