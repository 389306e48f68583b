-- ===== src/Decimal/RoundTrip.antt =====
-- Reading what was printed.
use Prim.Native.Char.{Char, code}
use vpc_workflow_demo.Prelude.{
  ℕ, zero, suc, ◌+◌, ◌*◌, ◌/◌, ◌%◌, ◌≤◌, ◌<◌, ◌≡◌, refl, String, some, arith, ltb, Bool-cases, inl,
  inr, ap, ◌∙◌, ◌-◌, false, ◌==◌,
}
use vpc_workflow_demo.Decimal.{
  pos, negsuc, max_int, digit_char, put_digits, itoa, scan, scan_digits, in_range_pos, atoi,
}

code-digit_char : (d : ℕ) → d < 10 → code (digit_char d) ≡ b'0' + d
unfolding digit_char
code-digit_char zero h = refl
code-digit_char (suc zero) h = refl
code-digit_char (suc (suc zero)) h = refl
code-digit_char (suc (suc (suc zero))) h = refl
code-digit_char (suc (suc (suc (suc zero)))) h = refl
code-digit_char (suc (suc (suc (suc (suc zero))))) h = refl
code-digit_char (suc (suc (suc (suc (suc (suc zero)))))) h = refl
code-digit_char (suc (suc (suc (suc (suc (suc (suc zero))))))) h = refl
code-digit_char (suc (suc (suc (suc (suc (suc (suc (suc zero)))))))) h = refl
code-digit_char (suc (suc (suc (suc (suc (suc (suc (suc (suc n))))))))) h =
    let e : n ≡ 0 = omega arith in rw e

scan-cons :
    (c : Char) (s : String) (n : ℕ)
    → ltb (code c) b'0' ≡ false
    → ltb b'9' (code c) ≡ false
    → scan (String.◌∷◌ c s) n ≡ scan s (n * 10 + (code c - b'0'))
unfolding scan
scan-cons c s n p q = rw (p, q)

scan-digit :
    (d n : ℕ) (out : String)
    → d < 10
    → scan (String.◌∷◌ (digit_char d) out) n ≡ scan out (n * 10 + d)
scan-digit d n out h =
    scan-cons (digit_char d) out n (ground (arith, code-digit_char d h))
      (ground (arith, code-digit_char d h))
    ∙ ap (scan out) (omega (arith, code-digit_char d h))

scan-put_digits : (f n : ℕ) (out : String) → n < f → scan (put_digits f n out) 0 ≡ scan out n
unfolding put_digits
scan-put_digits zero n out h = elim h [ ]
scan-put_digits (suc f) n out h = elim (Bool-cases (ltb n 10)) [
  | inl small ↦ rw small (scan-digit (n % 10) 0 out (omega arith) ∙ ap (scan out) (ground arith))
  | inr more ↦ rw more (
      scan-put_digits f (n / 10) (String.◌∷◌ (digit_char (n % 10)) out) (ground arith)
      ∙ scan-digit (n % 10) (n / 10) out (omega arith)
      ∙ ap (scan out) (omega arith))
]

-- What is printed begins with a digit.
starts_with_digit :
    (f n : ℕ) (out : String)
    → n < f
    → (c : Char) × (s : String) × (put_digits f n out ≡ String.◌∷◌ c s) × (b'0' ≤ code c)
unfolding put_digits
starts_with_digit zero n out h = elim h [ ]
starts_with_digit (suc f) n out h = elim (Bool-cases (ltb n 10)) [
  | inl small ↦
      (digit_char (n % 10), out, rw small, omega (arith, code-digit_char (n % 10) (omega arith)))
  | inr more ↦
      rw more (starts_with_digit f (n / 10) (String.◌∷◌ (digit_char (n % 10)) out) (ground arith))
]

scan_digits-put_digits : (n : ℕ) → scan_digits (put_digits (suc n) n "") ≡ some n
unfolding scan_digits
scan_digits-put_digits n =
    let (c, s, e, d) = starts_with_digit (suc n) n "" (omega arith) in
    rw e ((rw e at (scan-put_digits (suc n) n "" (omega arith))) ∙ (unfold scan in refl))

atoi-digits :
    (c : Char) (s : String) (n : ℕ)
    → b'0' ≤ code c
    → scan_digits (String.◌∷◌ c s) ≡ some n
    → n ≤ max_int
    → atoi (String.◌∷◌ c s) ≡ some (pos n)
unfolding atoi
atoi-digits c s n d read h =
    let minus : (code c == b'-') ≡ false = ground arith in
    let plus : (code c == b'+') ≡ false = ground arith in
    rw (minus, plus) (ap in_range_pos read ∙ ground arith)

-- Every number of the 64-bit `int` range that is not negative is read back as it was printed.
pub atoi-itoa_pos : (n : ℕ) → n ≤ max_int → atoi (itoa (pos n)) ≡ some (pos n)
unfolding itoa
atoi-itoa_pos n h =
    let (c, s, e, d) = starts_with_digit (suc n) n "" (omega arith) in
    rw e (atoi-digits c s n d (rw e at (scan_digits-put_digits n)) h)

-- So is every negative one.
pub atoi-itoa_negsuc : (n : ℕ) → n ≤ max_int → atoi (itoa (negsuc n)) ≡ some (negsuc n)
unfolding atoi itoa
atoi-itoa_negsuc n h = ground (arith, scan_digits-put_digits (suc n))
