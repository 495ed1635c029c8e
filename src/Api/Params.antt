-- ===== src/Api/Params.antt =====
-- intParam and intQuery of server/src/controllers.ts.
pub mod Bounds
pub mod Decimal
use foreseer.Base.{
  ℕ, suc, ◌+◌, ◌*◌, ◌-◌, ◌^◌, String, Bool, true, false, ◌&&◌, Option, none, some, List, [], ◌∷◌,
  leb, ◌==◌, nat_eq, if◌then◌else◌,
}
use foreseer.Base.Exec.{Result, ok, err, api}
use foreseer.Base.Text.{codes}
use foreseer.Json.{Value, undefined, string}

abbrev pub max_safe_integer : ℕ
max_safe_integer = 2 ^ 53 - 1

abbrev pub is_digit : ℕ → Bool
is_digit c = leb b'0' c && leb c b'9'

-- Number(value) of a text of digits, read after the number `n`; `none` where it has another character.
unfoldable pub read_digits : ℕ → List ℕ → Option ℕ
read_digits n [] = some n
read_digits n (c ∷ cs) =
    let rest = read_digits (n * 10 + (c - b'0')) cs in if is_digit c then rest else none

-- /^\d+$/ and Number. The number is exact: beyond 2 ^ 53 Number may round it, but no row has such an id,
-- as ids are counted up from 1 or from 0, so that neither number finds one.
unfoldable pub natural_of : List ℕ → Option ℕ
unfolding read_digits
natural_of [] = none
natural_of (c ∷ cs) = read_digits 0 (c ∷ cs)

-- The number 0, for the text "-0" too; another negative number is below every minimum of the callers.
abbrev pub negated : Option ℕ → Option ℕ
negated none = none
negated (some n) = if n == 0 then some 0 else none

-- /^-?\d+$/ and Number, with `none` for a negative number too.
unfoldable pub signed_of : List ℕ → Option ℕ
unfolding natural_of
signed_of [] = none
signed_of (c ∷ cs) = if c == b'-' then negated (natural_of cs) else natural_of (c ∷ cs)

abbrev pub no_route : Option ℕ → Result ℕ
no_route none = err (api 404 "no such route")
no_route (some n) = ok n

unfoldable pub int_param : String → Result ℕ
unfolding natural_of
int_param value = no_route (natural_of (codes value))

abbrev pub in_bounds : ℕ → ℕ → String → Option ℕ → Result ℕ
in_bounds min max message none = err (api 400 message)
in_bounds min max message (some n) =
    if leb n max_safe_integer && leb min n && leb n max then ok n else err (api 400 message)

-- Every caller has a minimum of 0 or more.
unfoldable pub int_query : Value → ℕ → ℕ → ℕ → String → Result ℕ
unfolding signed_of
int_query undefined fallback min max message = ok fallback
int_query (string s) fallback min max message = in_bounds min max message (signed_of (codes s))
int_query _ fallback min max message = err (api 400 message)
