-- ===== src/Base/Text/Lower.antt =====
-- A text in lower case has no upper case letter, so it stays as it is.
use Prim.Native.Nat.{ℕ, zero, suc, ◌-◌}
use Prim.Native.Char.{Char, code}
use Prim.Native.String.{String}
use mathlib.Core.Path.{◌≡◌, refl}
use mathlib.Core.Bool.{Bool, true, false, ◌&&◌}
use mathlib.Core.Logic.{inl, inr}
use mathlib.Core.List.{List, [], ◌∷◌}
use native.Mathlib.Omega.{arith}
use foreseer.Base.Tests.{leb, if◌then◌else◌, Bool-cases}
use foreseer.Base.Lists.{every}
use foreseer.Base.Text.{letter, alphabet, lower_letter, lower_char, to_lower_case}

is_upper : Char → Bool
is_upper c = leb b'A' (code c) && leb (code c) b'Z'

is_not_upper : Char → Bool
unfolding is_upper
is_not_upper c = if is_upper c then false else true

letter-is_not_upper :
    (cs : List Char) (n : ℕ) → every is_not_upper cs ≡ true → is_not_upper (letter cs n) ≡ true
unfolding letter is_not_upper
letter-is_not_upper [] n h = refl
letter-is_not_upper (c ∷ cs) zero h = ground arith
letter-is_not_upper (c ∷ cs) (suc n) h = letter-is_not_upper cs n (ground arith)

lower_char-same : (c : Char) → is_upper c ≡ false → lower_char c ≡ c
unfolding lower_char is_upper
lower_char-same c h = ground arith

not_upper-is_upper : (c : Char) → is_not_upper c ≡ true → is_upper c ≡ false
unfolding is_not_upper
not_upper-is_upper c h = ground arith

lower_char-letter : (c : Char) → is_upper c ≡ true → (n : ℕ) × (lower_char c ≡ letter alphabet n)
unfolding lower_char lower_letter is_upper
lower_char-letter c h = (code c - b'A', ground arith)

lower_char-is_upper : (c : Char) → is_upper (lower_char c) ≡ false
unfolding is_not_upper alphabet
lower_char-is_upper c = elim (Bool-cases (is_upper c)) [
  | inl up ↦
      let (n, e) = lower_char-letter c up in
      rw e (not_upper-is_upper (letter alphabet n) (letter-is_not_upper alphabet n refl))
  | inr same ↦ rw (lower_char-same c same) same
]

pub to_lower_case-to_lower_case : (s : String) → to_lower_case (to_lower_case s) ≡ to_lower_case s
unfolding to_lower_case
to_lower_case-to_lower_case String.[] = refl
to_lower_case-to_lower_case (String.◌∷◌ c s) =
    rw (lower_char-same (lower_char c) (lower_char-is_upper c), to_lower_case-to_lower_case s)
