-- ===== src/Top/Connect/Stuck.antt =====
-- A deletion in internal/top/orchestrator/orchestrator.go whose wait ends before its saga.
use vpc_workflow_demo.Prelude.{
  ℕ, zero, suc, Bool, true, false, Option, none, ◌≡◌, ◌∙◌, refl, String, false≢true, some, List,
  ◌∷◌, find_where, find_where-update_where, Option-cases, inl, inr, [],
}
use vpc_workflow_demo.World.{Result, ok, err}
use vpc_workflow_demo.Top.World.{
  Act, Top, TopEnv, IsCalm, Event, PccnRegistry, SagaStatus, TxStatus, asked, tick, attempt, pure,
  ignore, continue, db_query, query_unless, db_exec, exec_unless, or_wrap, wrap_result, raise,
  ◌>>=◌,
}
use vpc_workflow_demo.Top.Rules.{Keeps, IsStable, Keeps-or_wrap}
use vpc_workflow_demo.Top.Pccn.{named, one, set_status, get_pccn_by_name, update_pccn_status}
use vpc_workflow_demo.Top.PccnWatch.{watch_pccn_deletion, deletion_answer, deletion}
use vpc_workflow_demo.Top.Orchestrator.{Answer, respond, answer_of}
use vpc_workflow_demo.Top.Orchestrator.Reads.{Keeps-get_pccn_by_name, Keeps-submit_saga}
use vpc_workflow_demo.Top.Orchestrator.Refused.{IsAccepted, check_status-Keeps, zones-Keeps}
use vpc_workflow_demo.Top.Connect.{delete_pccn, check_status}

-- The table has a row of this name.
record Known (name : String) (w : Top) : Type 0 where
  row : PccnRegistry
  found : find_where (named name) w.pccns ≡ some row

-- It has one, whose status is `deleting`.
record Leaving (name : String) (w : Top) : Type 0 where
  row : PccnRegistry
  found : find_where (named name) w.pccns ≡ some row
  status : row.status ≡ "deleting"

Known-stable : (name : String) → IsStable (Known name)
Known-stable name = record { stable = λ w h. record { row = h.row; found = h.found } }

-- If no statement fails, the action is accepted only with `Q` of the tables after it.
record Ensures (P Q : Top → Type 0) (m : Act Answer) : Type 0 where
  at : (e : TopEnv) (w : Top) → IsCalm e → P w → IsAccepted (m e w).0 → Q (m e w).1

module _ {P Q : Top → Type 0} where
  Ensures-respond : (m : Act Answer) → Ensures P Q m → Ensures P Q (respond m)
  unfolding respond attempt pure IsAccepted
  Ensures-respond m h = record {
    at = λ e w c p yea. answered (m e w).0 (m e w).1 (h.at e w c p) yea;
  }
    where
      answered :
          (r : Result Answer) (w : Top) → (IsAccepted r → Q w) → IsAccepted (ok (answer_of r)) → Q w
      answered (ok a) w h yea = h yea
      answered (err x) w h bad = elim (false≢true bad) [ ]

  Ensures-bind {ℓ} :
      {A : Type ℓ} (m : Act A) (f : A → Act Answer)
      → Keeps P m
      → ((a : A) → Ensures P Q (f a))
      → Ensures P Q (m >>= f)
  unfolding IsAccepted
  Ensures-bind {A = A} m f h k = record {
    at = λ e w c p yea. continued (m e w).0 e (m e w).1 c (h.at e w p) yea;
  }
    where
      continued :
          (r : Result A) (e : TopEnv) (w : Top)
          → IsCalm e
          → P w
          → IsAccepted (continue r f e w).0
          → Q (continue r f e w).1
      continued (ok a) e w c p yea = (k a).at e w c p yea
      continued (err x) e w c p yea = elim yea [ ]

update-Ensures :
    (name : String) (a : Answer)
    → Ensures
        (Known name)
        (Leaving name)
        (ignore (update_pccn_status name "deleting" []) >>= λ _. pure a)
unfolding ignore update_pccn_status set_status db_exec exec_unless pure
update-Ensures name a = record {
  at = λ e w c known yea.
      let written = set_status (e.clock w.calls) "deleting" [] in
      let row =
        find_where-update_where (named name) (named name) written (λ x i. named name x) w.pccns
        ∙ rw known.found refl in
      rw (c.no_fault w.calls) (record { row = written known.row; found = row; status = refl });
}

delete_pccn-Leaving : (name : String) → Ensures (Known name) (Leaving name) (delete_pccn name)
unfolding delete_pccn
delete_pccn-Leaving name = Ensures-respond _ (
    Ensures-bind _ _ (Keeps-or_wrap _ _ (Keeps-get_pccn_by_name s _)) (λ p.
      Ensures-bind _ _ (check_status-Keeps s p) (λ _. Ensures-bind _ _ (zones-Keeps s _ _) (λ azs1.
        Ensures-bind _ _ (zones-Keeps s _ _)
          (λ azs2. Ensures-bind _ _ (Keeps-submit_saga s _ _ _) (λ tx. update-Ensures name _))))))
  where
    s : IsStable (Known name)
    s = Known-stable name

refused-Leaving :
    (name : String) (e : TopEnv) (w : Top) → Leaving name w → ¬ IsAccepted (delete_pccn name e w).0
unfolding delete_pccn respond attempt pure IsAccepted or_wrap wrap_result get_pccn_by_name db_query
    query_unless one check_status raise
refused-Leaving name e w l = elim (Option-cases (e.fault w.calls)) [
  | inl calm ↦ rw (calm, l.found, l.status) (λ bad. false≢true bad)
  | inr p ↦ rw (p.1) (λ bad. false≢true bad)
]

abbrev pub is_other : TxStatus → Bool
is_other (TxStatus.other x) = true
is_other _ = false

-- The saga is not at its end: it cannot be asked about, is not known, or has another status.
abbrev pub is_open : Result (Option SagaStatus) → Bool
is_open (err _) = true
is_open (ok none) = true
is_open (ok (some s)) = is_other s.status

-- So many ticks, and then these events.
abbrev pub ticks : ℕ → List Event → List Event
ticks zero es = es
ticks (suc n) es = Event.ticked ∷ ticks n es

ended :
    (name tx : String) (event : Event) (es : List Event) (e : TopEnv) (w : Top)
    → ¬ (event ≡ Event.ticked)
    → Leaving name w
    → ((watch_pccn_deletion (event ∷ es) tx name e w).0 ≡ ok true)
      × Leaving name (watch_pccn_deletion (event ∷ es) tx name e w).1
unfolding watch_pccn_deletion pure
ended name tx Event.done es e w h l = (refl, l)
ended name tx Event.timeout es e w h l = (refl, l)
ended name tx Event.ticked es e w h l = absurd (h refl)

unsettled :
    (name : String) (t : TxStatus) (rest : Act Bool) (e : TopEnv) (w : Top)
    → is_other t ≡ true
    → deletion name t rest e w ≡ rest e w
unsettled name (TxStatus.other x) rest e w h = refl
unsettled name TxStatus.succeeded rest e w h = absurd (false≢true h)
unsettled name TxStatus.failed rest e w h = absurd (false≢true h)

-- A tick at which the saga is still open leaves the row and the wait as they were.
waited :
    (name : String) (r : Result (Option SagaStatus)) (rest : Act Bool) (e : TopEnv) (w : Top)
    → is_open r ≡ true
    → deletion_answer name r rest e w ≡ rest e w
waited name (err x) rest e w h = refl
waited name (ok none) rest e w h = refl
waited name (ok (some s)) rest e w h = unsettled name s.status rest e w h

interrupted :
    (n : ℕ) (name tx : String) (event : Event) (es : List Event) (e : TopEnv) (w : Top)
    → ((k : ℕ) → is_open (e.saga_query k tx) ≡ true)
    → ¬ (event ≡ Event.ticked)
    → Leaving name w
    → ((watch_pccn_deletion (ticks n (event ∷ es)) tx name e w).0 ≡ ok true)
      × Leaving name (watch_pccn_deletion (ticks n (event ∷ es)) tx name e w).1
unfolding watch_pccn_deletion asked
interrupted zero name tx event es e w pending h l = ended name tx event es e w h l
interrupted (suc n) name tx event es e w pending h l =
    rw
      (waited name (e.saga_query w.calls tx) (watch_pccn_deletion (ticks n (event ∷ es)) tx name) e
        (tick w) (pending w.calls))
      (interrupted n name tx event es e (tick w) pending h
        (record { row = l.row; found = l.found; status = l.status }))

-- If no statement fails, and a request to delete a known PCCN is accepted, and the saga is still open at
-- each of any number of ticks, after which the service is shut down or the time is over, then the wait
-- ends, and leaves the PCCN in such a state that every later request to delete it is refused, whatever
-- the calls of that request answer.
pub watch_pccn_deletion-delete_pccn :
    (n : ℕ) (name tx : String) (event : Event) (es : List Event) (e f : TopEnv) (w : Top)
    (p : PccnRegistry)
    → IsCalm e
    → find_where (named name) w.pccns ≡ some p
    → IsAccepted (delete_pccn name e w).0
    → ((k : ℕ) → is_open (e.saga_query k tx) ≡ true)
    → ¬ (event ≡ Event.ticked)
    → ((watch_pccn_deletion (ticks n (event ∷ es)) tx name e (delete_pccn name e w).1).0 ≡ ok true)
      × ¬ IsAccepted
          (delete_pccn name f
            (watch_pccn_deletion (ticks n (event ∷ es)) tx name e (delete_pccn name e w).1).1).0
watch_pccn_deletion-delete_pccn n name tx event es e f w p calm found accepted pending ends =
    let left : Leaving name (delete_pccn name e w).1 =
      (delete_pccn-Leaving name).at e w calm (record { row = p; found = found }) accepted in
    let kept = interrupted n name tx event es e (delete_pccn name e w).1 pending ends left in
    (kept.0, refused-Leaving name f _ kept.1)
