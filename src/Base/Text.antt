-- ===== src/Base/Text.antt =====
-- Texts that the server builds: decimal numbers.
pub mod Decimal
pub mod Lower
use Prim.Native.Nat.{ℕ, zero, suc, ◌-◌, ◌/◌, ◌%◌}
use Prim.Native.Char.{Char, code}
use Prim.Native.String.{String, ◌++◌}
use mathlib.Core.Bool.{Bool, false, ◌&&◌, ◌||◌}
use mathlib.Core.List.{List, [], ◌∷◌}
use foreseer.Base.Tests.{ltb, leb, ◌==◌, nat_eq, if◌then◌else◌}
use foreseer.Base.Lists.{length, every}

digit : ℕ → String
digit zero = "0"
digit (suc zero) = "1"
digit (suc (suc zero)) = "2"
digit (suc (suc (suc zero))) = "3"
digit (suc (suc (suc (suc zero)))) = "4"
digit (suc (suc (suc (suc (suc zero))))) = "5"
digit (suc (suc (suc (suc (suc (suc zero)))))) = "6"
digit (suc (suc (suc (suc (suc (suc (suc zero))))))) = "7"
digit (suc (suc (suc (suc (suc (suc (suc (suc zero)))))))) = "8"
digit n = "9"

-- The digits of `n`, with fuel above it.
digits : ℕ → ℕ → String
digits zero n = ""
digits (suc fuel) n =
    let front = digits fuel (n / 10) in if ltb n 10 then digit n else front ++ digit (n % 10)

-- String(n).
unfoldable pub decimal : ℕ → String
unfolding digit digits
decimal n = digits (suc n) n

-- The code points of a text.
abbrev pub codes : String → List ℕ
codes String.[] = []
codes (String.◌∷◌ c s) = code c ∷ codes s

abbrev pub is_hex_digit : ℕ → Bool
is_hex_digit c =
    (leb b'0' c && leb c b'9') || (leb b'a' c && leb c b'f') || (leb b'A' c && leb c b'F')

abbrev pub is_lower_hex_digit : ℕ → Bool
is_lower_hex_digit c = (leb b'0' c && leb c b'9') || (leb b'a' c && leb c b'f')

-- /^0x[...]{n}$/ for a class of characters.
abbrev pub is_0x : (ℕ → Bool) → ℕ → List ℕ → Bool
is_0x digit? n (zero_ ∷ x ∷ rest) =
    zero_ == b'0' && x == b'x' && length rest == n && every digit? rest
is_0x digit? n _ = false

-- The letter at a place of the alphabet.
letter : List Char → ℕ → Char
letter [] n = "?"
letter (c ∷ cs) zero = c
letter (c ∷ cs) (suc n) = letter cs n

alphabet : List Char
alphabet =
    "a" ∷ "b" ∷ "c" ∷ "d" ∷ "e" ∷ "f" ∷ "g" ∷ "h" ∷ "i" ∷ "j" ∷ "k" ∷ "l" ∷ "m" ∷ "n" ∷ "o" ∷ "p"
    ∷ "q" ∷ "r" ∷ "s" ∷ "t" ∷ "u" ∷ "v" ∷ "w" ∷ "x" ∷ "y" ∷ "z" ∷ []

lower_letter : ℕ → Char
unfolding letter alphabet
lower_letter n = letter alphabet (n - b'A')

-- The lower case of an ASCII letter.
lower_char : Char → Char
lower_char c = if leb b'A' (code c) && leb (code c) b'Z' then lower_letter (code c) else c

-- String.prototype.toLowerCase on an ASCII text.
unfoldable pub to_lower_case : String → String
unfolding lower_char lower_letter
to_lower_case String.[] = String.[]
to_lower_case (String.◌∷◌ c s) = String.◌∷◌ (lower_char c) (to_lower_case s)
