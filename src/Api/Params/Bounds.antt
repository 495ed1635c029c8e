-- ===== src/Api/Params/Bounds.antt =====
-- What intQuery lets through.
use foreseer.Base.{ℕ, ◌≤◌, ◌≡◌, String, Option, none, some, arith}
use foreseer.Base.Exec.{ok}
use foreseer.Base.Text.{codes}
use foreseer.Json.{Value, undefined, null, fraction, boolean, integer, string, array, object}
use foreseer.Api.Params.{in_bounds, signed_of, int_query}

in_bounds-le :
    (min max : ℕ) (message : String) (o : Option ℕ) (n : ℕ)
    → in_bounds min max message o ≡ ok n
    → (min ≤ n) × (n ≤ max)
in_bounds-le min max message none n h = absurd (ground arith)
in_bounds-le min max message (some m) n h = ground arith

-- A query number that is let through is within its bounds, if the fallback is.
pub int_query-le :
    (value : Value) (fallback min max : ℕ) (message : String) (n : ℕ)
    → min ≤ fallback
    → fallback ≤ max
    → int_query value fallback min max message ≡ ok n
    → (min ≤ n) × (n ≤ max)
unfolding int_query
int_query-le undefined fallback min max message n l u h = ground arith
int_query-le (string s) fallback min max message n l u h =
    in_bounds-le min max message (signed_of (codes s)) n h
int_query-le null fallback min max message n l u h = absurd (ground arith)
int_query-le fraction fallback min max message n l u h = absurd (ground arith)
int_query-le (boolean b) fallback min max message n l u h = absurd (ground arith)
int_query-le (integer z) fallback min max message n l u h = absurd (ground arith)
int_query-le (array xs) fallback min max message n l u h = absurd (ground arith)
int_query-le (object fs) fallback min max message n l u h = absurd (ground arith)
