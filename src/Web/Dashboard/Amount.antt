-- ===== src/Web/Dashboard/Amount.antt =====
-- `flr` of web/app/dashboard/page.tsx: an amount of wei as the dashboard prints it.
use Prim.Native.String
use foreseer.Base.{
  ℕ, zero, suc, ◌+◌, ◌-◌, ◌/◌, ◌%◌, ◌≤◌, ◌<◌, ◌≡◌, ap, ◌∙◌, String, some, List, [], ◌∷◌, ◌++◌,
  arith, length, length-append,
}
use foreseer.Base.Int.{ℤ, pos, negsuc, abs_ℕ}
use foreseer.Base.Text.{codes, decimal}
use foreseer.Base.Text.Decimal.{codes-append, decimal_induction}
use foreseer.Api.Params.{natural_of, read_digits}
use foreseer.Api.Params.Decimal.{natural_of-decimal}

abbrev pub one_flr : ℕ
one_flr = 1000000000000000000

abbrev pub tenth_milli : ℕ
tenth_milli = 100000000000000

-- String.prototype.padStart with zeros.
pad_zeros : ℕ → String → String
pad_zeros zero s = s
pad_zeros (suc n) s = String.◌∷◌ "0" (pad_zeros n s)

unfoldable pub pad_start : ℕ → String → String
unfolding pad_zeros
pad_start n s = pad_zeros (n - length (codes s)) s

abbrev pub sign_of : ℤ → String
sign_of (pos n) = ""
sign_of (negsuc n) = "-"

unfoldable pub flr : ℤ → String
unfolding pad_start
flr wei =
    let fraction = pad_start 4 (decimal (abs_ℕ wei % one_flr / tenth_milli)) in
    String.◌++◌ (sign_of wei)
      (String.◌++◌ (decimal (abs_ℕ wei / one_flr)) (String.◌++◌ "." fraction))

-- A number prints in as many digits as it has.
abbrev IsShort : ℕ → List ℕ → Type 0
IsShort n xs =
    (n < 10 → length xs ≤ 1)
    × (n < 100 → length xs ≤ 2)
    × (n < 1000 → length xs ≤ 3)
    × (n < 10000 → length xs ≤ 4)

decimal-IsShort : (n : ℕ) → IsShort n (codes (decimal n))
decimal-IsShort n =
    decimal_induction IsShort
      (λ n h. (λ l. omega arith, λ l. omega arith, λ l. omega arith, λ l. omega arith))
      (λ n xs h ih.
        let e = length-append xs ((b'0' + n % 10) ∷ []) in
        (
          λ l. absurd (omega arith),
          λ l. omega (arith, e, ih.0 (omega arith)),
          λ l. omega (arith, e, ih.1 (omega arith)),
          λ l. omega (arith, e, ih.2 (omega arith)),
        ))
      n

length-pad_zeros : (k : ℕ) (s : String) → length (codes (pad_zeros k s)) ≡ k + length (codes s)
unfolding pad_zeros
length-pad_zeros zero s = omega arith
length-pad_zeros (suc k) s = omega (arith, length-pad_zeros k s)

natural_of-zero : (xs : List ℕ) (n : ℕ) → natural_of xs ≡ some n → natural_of (b'0' ∷ xs) ≡ some n
unfolding natural_of read_digits
natural_of-zero [] n h = absurd (ground arith)
natural_of-zero (x ∷ xs) n h = h

natural_of-pad_zeros :
    (k : ℕ) (s : String) (n : ℕ)
    → natural_of (codes s) ≡ some n
    → natural_of (codes (pad_zeros k s)) ≡ some n
unfolding pad_zeros
natural_of-pad_zeros zero s n h = h
natural_of-pad_zeros (suc k) s n h =
    natural_of-zero (codes (pad_zeros k s)) n (natural_of-pad_zeros k s n h)

abbrev fraction_of : ℤ → ℕ
fraction_of wei = abs_ℕ wei % one_flr / tenth_milli

-- An amount prints as its sign, a whole number, a dot and four digits; the two numbers are read
-- back as the whole coins and the ten thousandths of the amount, rounded towards zero.
pub flr-read :
    (wei : ℤ)
    → (whole fraction : List ℕ) × (codes (flr wei)
        ≡ codes (sign_of wei) ++ (whole ++ b'.' ∷ fraction))
      × (length fraction ≡ 4)
      × (natural_of whole ≡ some (abs_ℕ wei / one_flr))
      × (natural_of fraction ≡ some (abs_ℕ wei % one_flr / tenth_milli))
unfolding flr pad_start
flr-read wei =
    let whole = decimal (abs_ℕ wei / one_flr) in
    let digits = decimal (fraction_of wei) in
    let k : ℕ = 4 - length (codes digits) in
    let short = (decimal-IsShort (fraction_of wei)).3 (omega arith) in
    (
      codes whole,
      codes (pad_zeros k digits),
      codes-append (sign_of wei) (String.◌++◌ whole (String.◌++◌ "." (pad_zeros k digits)))
          ∙ ap (λ xs. codes (sign_of wei) ++ xs)
              (codes-append whole (String.◌++◌ "." (pad_zeros k digits))
                ∙ ap (λ xs. codes whole ++ xs) (codes-append "." (pad_zeros k digits))),
      omega (arith, length-pad_zeros k digits, short),
      natural_of-decimal (abs_ℕ wei / one_flr),
      natural_of-pad_zeros k digits (fraction_of wei) (natural_of-decimal (fraction_of wei)),
    )
