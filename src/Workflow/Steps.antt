-- ===== src/Workflow/Steps.antt =====
-- The steps of one workflow in the table `tasks`: those that are done, the one with the broker, and
-- those that wait.
use vpc_workflow_demo.Decimal.{int_eq, pos}
use vpc_workflow_demo.Models.{Task, is_pending, is_completed, TaskStatus}
use vpc_workflow_demo.Prelude.{
  ℕ, update_where, length, select, List, order_by, find_where, insert_by, ◌≡◌, All, Bool, ◌++◌, ◌∷◌,
  ◌+◌, [], first, ◌∙◌, true, some, refl, select-eq_nil, arith, false, text_eq_refl, String, In,
  Bool-cases, ◌=?◌, update_where_none, inl, select-eq_self, suc, inr, select-append, All-from-In,
  text_eq_iff, All-lookup, In-select,
}
use vpc_workflow_demo.Dao.Tasks
use vpc_workflow_demo.Dao.Tasks.Keys.{DistinctIds}

-- The orders count up from `n`.
abbrev pub Numbered : ℕ → List Task → Type 0
Numbered n [] = Unit
Numbered n (t ∷ ts) = (t.task_order ≡ n) × Numbered (n + 1) ts

abbrev pub AllCompleted : List Task → Type 0
AllCompleted = All (λ t. is_completed t.status ≡ true)

abbrev pub AllPending : List Task → Type 0
AllPending = All (λ t. is_pending t.status ≡ true)

pub Numbered-right :
    (n : ℕ) (xs ys : List Task) → Numbered n (xs ++ ys) → Numbered (n + length xs) ys
Numbered-right n [] ys h = let e : n ≡ n + 0 = omega arith in rw (← e) h
Numbered-right n (x ∷ xs) ys h =
    let e : n + 1 + length xs ≡ n + suc (length xs) = omega arith in
    rw (← e) (Numbered-right (n + 1) xs ys h.1)

pub Numbered-replace :
    (n : ℕ) (xs : List Task) (x y : Task) (ys : List Task)
    → y.task_order ≡ x.task_order
    → Numbered n (xs ++ x ∷ ys)
    → Numbered n (xs ++ y ∷ ys)
Numbered-replace n [] x y ys e h = (e ∙ h.0, h.1)
Numbered-replace n (z ∷ xs) x y ys e h = (h.0, Numbered-replace (n + 1) xs x y ys e h.1)

pub append-cons : (xs : List Task) (y : Task) (ys : List Task) → xs ++ y ∷ ys ≡ (xs ++ y ∷ []) ++ ys
append-cons [] y ys = refl
append-cons (x ∷ xs) y ys = rw (append-cons xs y ys)

pub length-snoc : (xs : List Task) (y : Task) → length (xs ++ y ∷ []) ≡ length xs + 1
length-snoc [] y = refl
length-snoc (x ∷ xs) y = ground (arith, length-snoc xs y)

pub length-middle :
    (xs : List Task) (y : Task) (ys : List Task) → length (xs ++ y ∷ ys) ≡ length xs + 1 + length ys
length-middle [] y ys = omega arith
length-middle (x ∷ xs) y ys = ground (arith, length-middle xs y ys)

-- The query of a step by its order finds it.
pub find_where-Numbered :
    (n k : ℕ) (xs : List Task) (x : Task) (ys : List Task)
    → k ≡ n + length xs
    → Numbered n (xs ++ x ∷ ys)
    → find_where (λ t. int_eq (pos t.task_order) (pos k)) (xs ++ x ∷ ys) ≡ some x
unfolding find_where
find_where-Numbered n k [] x ys e h = ground (arith, h.0)
find_where-Numbered n k (z ∷ xs) x ys e h =
    ground (arith, h.0, find_where-Numbered (n + 1) k xs x ys (omega (arith, e)) h.1)

order_by-Numbered : (n : ℕ) (xs : List Task) → Numbered n xs → order_by Tasks.lower_order xs ≡ xs
unfolding order_by insert_by
order_by-Numbered n [] h = refl
order_by-Numbered n (x ∷ []) h = refl
order_by-Numbered n (x ∷ (y ∷ ys)) h =
    let sorted : order_by Tasks.lower_order (y ∷ ys) ≡ y ∷ ys =
      order_by-Numbered (n + 1) (y ∷ ys) h.1 in
    rw sorted (ground (arith, h.0, h.1.0))

pub differs_sym : (a b : String) → (a =? b) ≡ false → (b =? a) ≡ false
differs_sym a b h = ground (arith, text_eq_iff a b, text_eq_iff b a)

pub In-middle : (xs : List Task) (x : Task) (ys : List Task) → In x (xs ++ x ∷ ys)
In-middle [] x ys = inl refl
In-middle (z ∷ xs) x ys = inr (In-middle xs x ys)

-- A write to the task with the broker.
pub update_where-current :
    (f : Task → Task) (xs : List Task) (x : Task) (ys : List Task)
    → DistinctIds (xs ++ x ∷ ys)
    → update_where (Tasks.has_id x.id) f (xs ++ x ∷ ys) ≡ xs ++ f x ∷ ys
unfolding update_where
update_where-current f [] x ys d =
    rw (text_eq_refl x.id, update_where_none (Tasks.has_id x.id) f ys d.0)
update_where-current f (z ∷ xs) x ys d =
    let differs : (x.id =? z.id) ≡ false =
      All-lookup (λ y. (y.id =? z.id) ≡ false) (xs ++ x ∷ ys) x d.0 (In-middle xs x ys) in
    rw (differs_sym x.id z.id differs, update_where-current f xs x ys d.1)

pub DistinctIds-select :
    (p : Task → Bool) (l : List Task) → DistinctIds l → DistinctIds (select p l)
unfolding select
DistinctIds-select p [] d = tt
DistinctIds-select p (x ∷ xs) d = elim (Bool-cases (p x)) [
  | inl t ↦ rw t (
    All-from-In (λ y. (y.id =? x.id) ≡ false) (select p xs)
        (λ y m. All-lookup (λ y. (y.id =? x.id) ≡ false) xs y d.0 (In-select p xs y m).0),
    DistinctIds-select p xs d.1,
  )
  | inr f ↦ rw f (DistinctIds-select p xs d.1)
]

completed_not_pending : (s : TaskStatus) → is_completed s ≡ true → is_pending s ≡ false
completed_not_pending s h = ground arith

none_pending : (xs : List Task) → AllCompleted xs → All (λ t. is_pending t.status ≡ false) xs
none_pending [] h = tt
none_pending (x ∷ xs) h = (completed_not_pending x.status h.0, none_pending xs h.1)

-- The step that waits first is the one that `GetNextPendingTask` answers.
pub next_of :
    (n : ℕ) (xs : List Task) (y : Task) (ys : List Task)
    → AllCompleted xs
    → AllPending (y ∷ ys)
    → Numbered n (y ∷ ys)
    → first (order_by Tasks.lower_order (select (λ t. is_pending t.status) (xs ++ y ∷ ys))) ≡ some y
next_of n xs y ys a b c =
    let gone : select (λ (t : Task). is_pending t.status) xs ≡ [] =
      select-eq_nil (λ (t : Task). is_pending t.status) xs (none_pending xs a) in
    let kept : select (λ (t : Task). is_pending t.status) (y ∷ ys) ≡ y ∷ ys =
      select-eq_self (λ (t : Task). is_pending t.status) (y ∷ ys) b in
    rw (
      select-append (λ (t : Task). is_pending t.status) xs (y ∷ ys),
      gone,
      kept,
      order_by-Numbered n (y ∷ ys) c,
    )
