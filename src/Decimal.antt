-- ===== src/Decimal.antt =====
-- `strconv.Itoa` and `strconv.Atoi` for the 64-bit `int`, which internal/orchestration/workflow.go
-- and tasks/handlers.go use for the step numbers in a message's metadata.
pub mod RoundTrip
use Prim.Native.Char.{Char, code}
use vpc_workflow_demo.Prelude.{
  ℕ, zero, suc, ◌+◌, ◌-◌, ◌*◌, ◌/◌, ◌%◌, ◌^◌, ◌≡◌, refl, Bool, false, ◌||◌, String, Option, none,
  some, ltb, leb, ◌==◌, if◌then◌else◌,
}

-- `negsuc n` is -(n + 1).
pub data ℤ : Type 0 where
  pos : ℕ → ℤ
  negsuc : ℕ → ℤ

abbrev pub max_int : ℕ
max_int = 2 ^ 63 - 1

-- `i + 1` and `i - 1` on a 64-bit int, which wrap around.
unfoldable pub int_succ : ℤ → ℤ
int_succ (pos n) = if n == max_int then negsuc max_int else pos (n + 1)
int_succ (negsuc zero) = pos 0
int_succ (negsuc (suc n)) = negsuc n

unfoldable pub int_pred : ℤ → ℤ
int_pred (pos zero) = negsuc 0
int_pred (pos (suc n)) = pos n
int_pred (negsuc n) = if n == max_int then pos max_int else negsuc (n + 1)

abbrev pub int_eq : ℤ → ℤ → Bool
int_eq (pos m) (pos n) = m == n
int_eq (pos m) (negsuc n) = false
int_eq (negsuc m) (pos n) = false
int_eq (negsuc m) (negsuc n) = m == n

digit_char : ℕ → Char
digit_char zero = "0"
digit_char (suc zero) = "1"
digit_char (suc (suc zero)) = "2"
digit_char (suc (suc (suc zero))) = "3"
digit_char (suc (suc (suc (suc zero)))) = "4"
digit_char (suc (suc (suc (suc (suc zero))))) = "5"
digit_char (suc (suc (suc (suc (suc (suc zero)))))) = "6"
digit_char (suc (suc (suc (suc (suc (suc (suc zero))))))) = "7"
digit_char (suc (suc (suc (suc (suc (suc (suc (suc zero)))))))) = "8"
digit_char (suc (suc (suc (suc (suc (suc (suc (suc (suc n))))))))) = "9"

-- The digits of `n` in front of `out`; `n + 1` rounds are enough.
put_digits : ℕ → ℕ → String → String
put_digits zero n out = out
put_digits (suc f) n out =
    let out' = String.◌∷◌ (digit_char (n % 10)) out in
    let rest = put_digits f (n / 10) out' in if ltb n 10 then out' else rest

unfoldable pub itoa : ℤ → String
unfolding put_digits digit_char
itoa (pos n) = put_digits (suc n) n ""
itoa (negsuc n) = String.◌∷◌ "-" (put_digits (suc (suc n)) (suc n) "")

scan : String → ℕ → Option ℕ
scan String.[] n = some n
scan (String.◌∷◌ c s) n =
    let rest = scan s (n * 10 + (code c - b'0')) in
    if ltb (code c) b'0' || ltb b'9' (code c) then none else rest

-- A sign is followed by a digit at least.
scan_digits : String → Option ℕ
scan_digits String.[] = none
scan_digits (String.◌∷◌ c s) = scan (String.◌∷◌ c s) 0

in_range_pos : Option ℕ → Option ℤ
in_range_pos none = none
in_range_pos (some n) = if leb n max_int then some (pos n) else none

negated : ℕ → ℤ
negated zero = pos 0
negated (suc n) = negsuc n

in_range_neg : Option ℕ → Option ℤ
in_range_neg none = none
in_range_neg (some n) = if leb n (max_int + 1) then some (negated n) else none

unfoldable pub atoi : String → Option ℤ
unfolding scan_digits scan in_range_pos in_range_neg negated
atoi String.[] = none
atoi (String.◌∷◌ c s) =
    if code c == b'-'
    then in_range_neg (scan_digits s)
    else if code c == b'+'
    then in_range_pos (scan_digits s)
    else in_range_pos (scan_digits (String.◌∷◌ c s))

itoa_runs : itoa (negsuc 119) ≡ "-120"
unfolding itoa
itoa_runs = refl

atoi_runs : atoi "+307" ≡ some (pos 307)
unfolding atoi
atoi_runs = refl

atoi_rejects : (atoi "" ≡ none) × (atoi "-" ≡ none) × (atoi "9223372036854775808" ≡ none)
unfolding atoi
atoi_rejects = (refl, refl, refl)
