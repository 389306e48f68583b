-- ===== src/Prelude/Texts.antt =====
-- Equality of whole texts.
use Prim.Native.Char.{Char}
use Prim.Native.String.{String, ◌++◌}
use Prim.Native.String.append
use Prim.Native.String.compare
use mathlib.Core.Path.{◌≡◌}
use mathlib.Core.Bool.{Bool, true, false}
use mathlib.Core.Logic.{◌↔◌}
use text.Mathlib.Text.{◌==◌}
use text.Mathlib.TextEquality

infix 50 ◌=?◌
abbrev pub ◌=?◌ : String → String → Bool
s =? t = s == t

pub text_eq_iff : (s t : String) → ((s =? t) ≡ true) ↔ (s ≡ t)
text_eq_iff = TextEquality.eq_iff

pub text_eq_refl : (s : String) → (s =? s) ≡ true
text_eq_refl s = (TextEquality.eq_iff s s).1 (λ i. s)

-- A text that begins with a character is not empty, whatever is added to it.
pub append_not_empty : (c : Char) (s t : String) → ((String.◌∷◌ c s ++ t) =? "") ≡ false
append_not_empty c s t = rw (append.cons c s t, compare.cons-nil c (s ++ t))
