-- ===== src/Tests/Doors.antt =====
-- The theorems about the guards, with the identity for SHA-256, and about the start of the server.
use foreseer.Base.{ℕ, ◌≤◌, ◌≡◌, refl, String, true, none, some, List, [], ◌∷◌, arith}
use foreseer.Base.Exec.{ok}
use foreseer.Db.{Db, empty}
use foreseer.Guards.{Request, Rate, operator_by_key, read_rate_guard}
use foreseer.Guards.Windows.{admitted_plays, admitted_plays-le-limit}
use foreseer.Guards.Access.{read_rate_guard-credentialed}
use foreseer.Start.{Environment}
use foreseer.Tests.{acme}

abbrev sha256 : String → String
sha256 s = s

abbrev one_operator : Db
one_operator = record empty { operators = acme ∷ []; last_operator_id = 1 }

abbrev rate : Rate
rate = record { limit = 2; window_seconds = 10 }

abbrev from_acme : Request
from_acme = record {
  admin_key = none;
  api_key = some "k";
  forwarded_for = some " 10.0.0.1, 10.0.0.2";
  owner_token = none;
  ip = none;
}

-- Four plays, three of them of the operator 1 in its first window.
abbrev plays : List (ℕ × ℕ)
plays = (1, 1000) ∷ (1, 2000) ∷ (2, 3000) ∷ (1, 4000) ∷ []

admitted_plays-le-limit_example : admitted_plays rate 1 0 plays [] ≤ 2
admitted_plays-le-limit_example =
    admitted_plays-le-limit rate 1 0 plays
      (omega arith, (omega arith, (omega arith, (omega arith, tt))))

read_rate_guard-credentialed_example :
    read_rate_guard sha256 rate "admin" one_operator from_acme 1000 [] ≡ (ok true, [])
unfolding operator_by_key
read_rate_guard-credentialed_example =
    read_rate_guard-credentialed sha256 rate "admin" one_operator from_acme 1000 [] refl

-- An admin key of one's own, and no signing key.
abbrev half_set : Environment
half_set = record { admin_key = some "secret"; tee_key = none; allow_dev_defaults = none }
