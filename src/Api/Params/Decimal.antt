-- ===== src/Api/Params/Decimal.antt =====
-- A number in the path of a request, as clients print it, is read back by intParam.
use foreseer.Base.{ℕ, ◌+◌, ◌-◌, ◌*◌, ◌/◌, ◌%◌, ◌≡◌, ap, ◌∙◌, some, List, [], ◌∷◌, ◌++◌, arith, true}
use foreseer.Base.Exec.{ok}
use foreseer.Base.Text.{codes, decimal}
use foreseer.Base.Text.Decimal.{decimal_induction}
use foreseer.Api.Params.{is_digit, read_digits, natural_of, int_param, no_route}

read_digits-append :
    (m v c : ℕ) (xs : List ℕ)
    → read_digits m xs ≡ some v
    → is_digit c ≡ true
    → read_digits m (xs ++ c ∷ []) ≡ some (v * 10 + (c - b'0'))
unfolding read_digits
read_digits-append m v c [] h d = ground arith
read_digits-append m v c (x ∷ xs) h d =
    ground (arith, read_digits-append (m * 10 + (x - b'0')) v c xs)

natural_of-append :
    (v c : ℕ) (xs : List ℕ)
    → natural_of xs ≡ some v
    → is_digit c ≡ true
    → natural_of (xs ++ c ∷ []) ≡ some (v * 10 + (c - b'0'))
unfolding natural_of
natural_of-append v c [] h d = absurd (ground arith)
natural_of-append v c (x ∷ xs) h d = read_digits-append 0 v c (x ∷ xs) h d

pub natural_of-decimal : (n : ℕ) → natural_of (codes (decimal n)) ≡ some n
unfolding natural_of read_digits
natural_of-decimal n =
    decimal_induction (λ n xs. natural_of xs ≡ some n) (λ n h. ground arith)
      (λ n xs h ih.
        natural_of-append (n / 10) (b'0' + n % 10) xs ih (ground arith) ∙ ap some (omega arith))
      n

-- A number that is printed in decimal in a path is read back as that number.
pub int_param-decimal : (n : ℕ) → int_param (decimal n) ≡ ok n
unfolding int_param
int_param-decimal n = ap no_route (natural_of-decimal n)
