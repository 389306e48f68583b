-- ===== src/Queue/Routing.antt =====
-- The queues that tasks are published to, against those that the worker of a device consumes.
use text.Mathlib.TextLemmas.{append_assoc, append-nil, append_cancel_left}
use vpc_workflow_demo.Prelude.{
  ℕ, ap, map, List, String, Bool, true, ◌+++◌, ◌≡◌, ◌∙◌, sym, refl, In, Bool-cases, ◌=?◌, ◌==◌, ◌∷◌,
  ◌&&◌, not, inr, inl, [], if◌then◌else◌, text_eq_iff, arith, ap, map,
}
use vpc_workflow_demo.Queue.{
  queue_name, priority_queue_name, priority_suffix, queue_config, device_type_switch,
  device_type_firewall, device_type_load_balancer,
}

-- The weight of the queue that a priority is published to.
abbrev pub weight : ℕ → ℕ
weight p = if p == 9 then 9 else if p == 6 then 6 else if p == 1 then 1 else 3

abbrev pub devices : List String
devices = device_type_switch ∷ device_type_firewall ∷ device_type_load_balancer ∷ []

abbrev suffixes : List String
suffixes = "_critical" ∷ "_high" ∷ "" ∷ "_low" ∷ []

-- The name of a queue of a zone.
abbrev named : String → String → String → String
named region az x = "tasks:" +++ (region +++ (":" +++ (az +++ (":" +++ x))))

suffixed :
    (region az device suffix : String)
    → queue_name region az device +++ suffix ≡ named region az (device +++ suffix)
unfolding queue_name
suffixed region az device suffix =
    rw (append_assoc, append_assoc, append_assoc, append_assoc, append_assoc)

unsuffixed :
    (region az device : String) → queue_name region az device ≡ named region az (device +++ "")
unfolding queue_name
unsuffixed region az device = rw (append-nil device)

named_injective : (region az x y : String) → named region az x ≡ named region az y → x ≡ y
named_injective region az x y h = append_cancel_left ":" x y (
    append_cancel_left az _ _ (
      append_cancel_left ":" _ _
        (append_cancel_left region _ _ (append_cancel_left "tasks:" _ _ h))))

-- The worker of the device consumes the queue, with the weight of the priority.
pub routed :
    (region az device : String) (p : ℕ)
    → In (priority_queue_name region az device p, weight p) (queue_config region az device)
unfolding priority_queue_name queue_config
routed region az device p = elim (Bool-cases (p == 9)) [
  | inl c ↦ rw c (inl (ap (λ q. (q, 9)) (suffixed region az device "_critical")))
  | inr c ↦ elim (Bool-cases (p == 6)) [
    | inl h ↦ rw (c, h) (inr (inl (ap (λ q. (q, 6)) (suffixed region az device "_high"))))
    | inr h ↦ elim (Bool-cases (p == 1)) [
      | inl l ↦
          rw (c, h, l) (inr (inr (inr (inl (ap (λ q. (q, 1)) (suffixed region az device "_low"))))))
      | inr l ↦ rw (c, h, l) (inr (inr (inl (ap (λ q. (q, 3)) (unsuffixed region az device)))))
    ]
  ]
]

suffix-In : (p : ℕ) → In (priority_suffix p) suffixes
suffix-In p = elim (Bool-cases (p == 9)) [
  | inl c ↦ rw c (inl refl)
  | inr c ↦ elim (Bool-cases (p == 6)) [
    | inl h ↦ rw (c, h) (inr (inl refl))
    | inr h ↦ elim (Bool-cases (p == 1)) [
      | inl l ↦ rw (c, h, l) (inr (inr (inr (inl refl))))
      | inr l ↦ rw (c, h, l) (inr (inr (inl refl)))
    ]
  ]
]

-- A queue that the worker of a device consumes has the name of the device.
consumed :
    (region az device q : String) (n : ℕ)
    → In (q, n) (queue_config region az device)
    → (s : String) × In s suffixes × (q ≡ named region az (device +++ s))
unfolding queue_config
consumed region az device q n (inl h) =
    ("_critical", inl refl, sym (ap (λ x. x.0) h) ∙ suffixed region az device "_critical")
consumed region az device q n (inr (inl h)) =
    ("_high", inr (inl refl), sym (ap (λ x. x.0) h) ∙ suffixed region az device "_high")
consumed region az device q n (inr (inr (inl h))) =
    ("", inr (inr (inl refl)), sym (ap (λ x. x.0) h) ∙ unsuffixed region az device)
consumed region az device q n (inr (inr (inr (inl h)))) =
    ("_low", inr (inr (inr (inl refl))), sym (ap (λ x. x.0) h) ∙ suffixed region az device "_low")
consumed region az device q n (inr (inr (inr (inr h)))) = elim h [ ]

-- No two queues of these devices have the same name.
abbrev differs : String → List String → Bool
differs x [] = true
differs x (y ∷ ys) = not (x =? y) && differs x ys

abbrev with_all : String → List String → List String
with_all d ss = map (λ s. d +++ s) ss

abbrev all_differ : List String → List String → Bool
all_differ [] ys = true
all_differ (x ∷ xs) ys = differs x ys && all_differ xs ys

abbrev apart : String → String → Bool
apart d c = all_differ (with_all d suffixes) (with_all c suffixes)

devices-apart : (d c : String) → In d devices → In c devices → ¬ (d ≡ c) → apart d c ≡ true
devices-apart d c (inl a) (inl b) h = absurd (h (sym a ∙ b))
devices-apart d c (inl a) (inr (inl b)) h = rw (← a, ← b) refl
devices-apart d c (inl a) (inr (inr (inl b))) h = rw (← a, ← b) refl
devices-apart d c (inr (inl a)) (inl b) h = rw (← a, ← b) refl
devices-apart d c (inr (inl a)) (inr (inl b)) h = absurd (h (sym a ∙ b))
devices-apart d c (inr (inl a)) (inr (inr (inl b))) h = rw (← a, ← b) refl
devices-apart d c (inr (inr (inl a))) (inl b) h = rw (← a, ← b) refl
devices-apart d c (inr (inr (inl a))) (inr (inl b)) h = rw (← a, ← b) refl
devices-apart d c (inr (inr (inl a))) (inr (inr (inl b))) h = absurd (h (sym a ∙ b))
devices-apart d c (inr (inr (inr a))) m h = elim a [ ]
devices-apart d c m (inr (inr (inr b))) h = elim b [ ]

differs-In :
    (x : String) (ys : List String) (y : String) → differs x ys ≡ true → In y ys → ¬ (x ≡ y)
differs-In x [] y h m same = elim m [ ]
differs-In x (z ∷ ys) y h (inl e) same =
    let hit : (x =? z) ≡ true = (text_eq_iff x z).1 (same ∙ sym e) in
    absurd (ground (arith, h, hit))
differs-In x (z ∷ ys) y h (inr m) same = differs-In x ys y (ground (arith, h)) m same

with_all-In : (c s : String) (ss : List String) → In s ss → In (c +++ s) (with_all c ss)
with_all-In c s [] m = elim m [ ]
with_all-In c s (x ∷ ss) (inl e) = inl (ap (λ y. c +++ y) e)
with_all-In c s (x ∷ ss) (inr m) = inr (with_all-In c s ss m)

all_differ-In :
    (xs ys : List String) (x y : String) → all_differ xs ys ≡ true → In x xs → In y ys → ¬ (x ≡ y)
all_differ-In [] ys x y h m n same = elim m [ ]
all_differ-In (z ∷ xs) ys x y h (inl e) n same = differs-In z ys y (ground (arith, h)) n (e ∙ same)
all_differ-In (z ∷ xs) ys x y h (inr m) n same =
    all_differ-In xs ys x y (ground (arith, h)) m n same

-- No worker of another device consumes the queue.
pub unshared :
    (region az device other : String) (p n : ℕ)
    → In device devices
    → In other devices
    → ¬ (device ≡ other)
    → ¬ In (priority_queue_name region az device p, n) (queue_config region az other)
unfolding priority_queue_name
unshared region az device other p n m k differ taken =
    let c = consumed region az other (priority_queue_name region az device p) n taken in
    all_differ-In (with_all device suffixes) (with_all other suffixes) _ _
      (devices-apart device other m k differ)
      (with_all-In device (priority_suffix p) suffixes (suffix-In p))
      (with_all-In other c.0 suffixes c.1) (named_injective region az _ _ c.2)
