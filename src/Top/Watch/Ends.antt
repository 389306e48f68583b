-- ===== src/Top/Watch/Ends.antt =====
-- The loops of internal/top/orchestrator/orchestrator.go for a VPC end.
use vpc_workflow_demo.Prelude.{
  ◌≡◌, refl, String, Bool, true, false, Option, none, some, List, [], ◌∷◌, arith, ◌∙◌, ap,
}
use vpc_workflow_demo.World.{Result, ok, err}
use vpc_workflow_demo.Top.World.{
  Act, Top, TopEnv, Az, AzDetail, Event, TxStatus, SagaStatus, VpcRegistry, ◌>>=◌, pure,
}
use vpc_workflow_demo.Top.Rules.{
  Answers, Answers-pure, Answers-asked, Answers-attempt, Answers-ignore, Answers-if, Answers-bind,
}
use vpc_workflow_demo.Top.Watch.{
  wait_for_saga_completion, saga_answer, mark_vpc_from_saga_failure, mark_answer, Round, ask_zones,
  zone_answer, member, change_details, save_answer, save_found, poll_az_worker_statuses, after_wait,
  watch_saga_and_poll_azs, waited,
}

-- One of the events is a shutdown or the end of the time.
abbrev pub stops : List Event → Bool
stops [] = false
stops (Event.ticked ∷ es) = stops es
stops (_ ∷ es) = true

abbrev IsSome : Option TxStatus → Type 0
IsSome o = (s : TxStatus) × (o ≡ some s)

saga_answer-Answers :
    (a : Result (Option SagaStatus)) (rest : Act (Option TxStatus))
    → Answers IsSome rest
    → Answers IsSome (saga_answer a rest)
saga_answer-Answers (err x) rest h = h
saga_answer-Answers (ok none) rest h = h
saga_answer-Answers (ok (some s)) rest h = elim s.status as (λ t. Answers IsSome (waited t rest)) [
  | TxStatus.succeeded ↦ Answers-pure _ (_, refl)
  | TxStatus.failed ↦ Answers-pure _ (_, refl)
  | TxStatus.other x ↦ h
]

wait-Answers :
    (es : List Event) (tx name : String) (azs : List Az)
    → stops es ≡ true
    → Answers IsSome (wait_for_saga_completion es tx name azs)
unfolding wait_for_saga_completion
wait-Answers [] tx name azs h = absurd (ground arith)
wait-Answers (Event.done ∷ es) tx name azs h =
    Answers-bind _ _ (Answers-ignore _) (λ _ _. Answers-pure _ (_, refl))
wait-Answers (Event.timeout ∷ es) tx name azs h =
    Answers-bind _ _ (Answers-ignore _) (λ _ _. Answers-pure _ (_, refl))
wait-Answers (Event.ticked ∷ es) tx name azs h =
    Answers-bind _ _ (Answers-asked _)
      (λ a _. saga_answer-Answers a _ (wait-Answers es tx name azs h))

abbrev Anything {ℓ} : {A : Type ℓ} → A → Type 0
Anything _ = Unit

save_answer-Answers :
    (name : String) (change : List (String × AzDetail) → List (String × AzDetail))
    (r : Result VpcRegistry)
    → Answers Anything (save_answer name change r)
unfolding save_answer
save_answer-Answers name change (ok v) = Answers-ignore _
save_answer-Answers name change (err x) = Answers-pure _ tt

change_details-Answers :
    (name : String) (change : List (String × AzDetail) → List (String × AzDetail))
    → Answers Anything (change_details name change)
unfolding change_details
change_details-Answers name change =
    Answers-bind _ _ (Answers-attempt _) (λ r _. save_answer-Answers name change r)

save_found-Answers :
    (name : String) (ds : List (String × AzDetail)) → Answers Anything (save_found name ds)
unfolding save_found
save_found-Answers name [] = Answers-pure _ tt
save_found-Answers name (d ∷ ds) = change_details-Answers name _

ask_zones-Answers :
    (name : String) (azs : List Az) (r : Round) → Answers Anything (ask_zones name azs r)
unfolding ask_zones
ask_zones-Answers name [] r = Answers-pure _ tt
ask_zones-Answers name (z ∷ zs) r =
    Answers-if (member z.id r.settled) _ _ (ask_zones-Answers name zs r)
      (Answers-bind _ _ (Answers-asked _) (λ a _. ask_zones-Answers name zs (zone_answer z a r)))

abbrev IsTrue : Bool → Type 0
IsTrue b = b ≡ true

poll-Answers :
    (es : List Event) (name : String) (azs : List Az) (settled : List String)
    → stops es ≡ true
    → Answers IsTrue (poll_az_worker_statuses es name azs settled)
unfolding poll_az_worker_statuses
poll-Answers [] name azs settled h = absurd (ground arith)
poll-Answers (Event.done ∷ es) name azs settled h =
    Answers-bind _ _ (change_details-Answers name _) (λ _ _. Answers-pure _ refl)
poll-Answers (Event.timeout ∷ es) name azs settled h =
    Answers-bind _ _ (save_found-Answers name _) (λ _ _. Answers-pure _ refl)
poll-Answers (Event.ticked ∷ es) name azs settled h =
    Answers-bind _ _ (ask_zones-Answers name azs _) (λ r _.
      Answers-bind _ _ (save_found-Answers name r.details) (λ _ _.
        Answers-if r.all_settled _ _ (Answers-pure _ refl) (poll-Answers es name azs r.settled h)))

mark_answer-Answers :
    (name : String) (azs : List Az) (a : Result (Option SagaStatus))
    → Answers Anything (mark_answer name azs a)
unfolding mark_answer
mark_answer-Answers name azs (err x) = Answers-pure _ tt
mark_answer-Answers name azs (ok none) = Answers-pure _ tt
mark_answer-Answers name azs (ok (some s)) = Answers-ignore _

mark-Answers :
    (tx name : String) (azs : List Az)
    → Answers IsTrue (mark_vpc_from_saga_failure tx name azs >>= λ _. pure true)
unfolding mark_vpc_from_saga_failure
mark-Answers tx name azs =
    Answers-bind _ _ (Answers-bind _ _ (Answers-asked _) (λ a _. mark_answer-Answers name azs a))
      (λ _ _. Answers-pure _ refl)

after_wait-Answers :
    (fs : List Event) (tx name : String) (azs : List Az) (s : TxStatus)
    → stops fs ≡ true
    → Answers IsTrue (after_wait fs tx name azs (some s))
after_wait-Answers fs tx name azs TxStatus.succeeded h = poll-Answers fs name azs [] h
after_wait-Answers fs tx name azs TxStatus.failed h = mark-Answers tx name azs
after_wait-Answers fs tx name azs (TxStatus.other x) h = mark-Answers tx name azs

-- The background work for a VPC comes to its end without an error, whichever calls fail, if each of its
-- two loops is shut down or runs out of time at last; it may end before that.
pub watch_saga_and_poll_azs-ends :
    (es fs : List Event) (tx name : String) (azs : List Az) (e : TopEnv) (w : Top)
    → stops es ≡ true
    → stops fs ≡ true
    → (watch_saga_and_poll_azs es fs tx name azs e w).0 ≡ ok true
unfolding watch_saga_and_poll_azs
watch_saga_and_poll_azs-ends es fs tx name azs e w h k =
    let all : Answers IsTrue (watch_saga_and_poll_azs es fs tx name azs) =
      Answers-bind _ _ (wait-Answers es tx name azs h)
        (λ o is. rw is.1 (after_wait-Answers fs tx name azs is.0 k)) in
    let (b, eq, t) = all.at e w in eq ∙ ap (λ x. ok x) t
