-- ===== src/Tests/Operators.antt =====
-- The theorems about operators and their keys, with the identity for SHA-256.
use foreseer.Base.{ℕ, ◌≢◌, refl, String, false, none, some, [], ◌∷◌}
use foreseer.Json.{Value, undefined, string, boolean, object, field, end}
use foreseer.Engine.{Engine}
use foreseer.Wallet.{Sessions}
use foreseer.Guards.{Request, operator_guard, operator_by_key}
use foreseer.Api.Operators.{Created, create_operator, create_for_wallet, set_active}
use foreseer.Api.Operators.Distinct.{CreateAnswer, create_operator_answers}
use foreseer.Api.Operators.Services.{ServiceAnswer, create_for_wallet_answers}
use foreseer.Api.Operators.Keys.{set_active-operator_guard}
use foreseer.Api.Run.{genesis}

abbrev sha256 : String → String
sha256 s = s

abbrev named : Value
named = object (field "name" (string "acme") end)

abbrev with_acme : Engine
with_acme = record genesis {
  db = record genesis.db {
    operators =
        record {
          id = 1;
          name = "acme";
          api_key_hash = "fsk_00";
          created_at = 7;
          owner_wallet = none;
          active = 1;
        }
        ∷ [];
    last_operator_id = 1;
  };
}

abbrev suspended : Engine
suspended = record with_acme {
  db = record with_acme.db {
    operators =
        record {
          id = 1;
          name = "acme";
          api_key_hash = "fsk_00";
          created_at = 7;
          owner_wallet = none;
          active = 0;
        }
        ∷ record {
          id = 0;
          name = "base";
          api_key_hash = "fsk_11";
          created_at = 7;
          owner_wallet = none;
          active = 1;
        }
        ∷ [];
  };
}

abbrev answer : Created
answer = record { id = 1; name = "acme"; owner_wallet = none; api_key = "fsk_00" }

abbrev from : String → Request
from key = record {
  admin_key = none;
  api_key = some key;
  forwarded_for = none;
  owner_token = none;
  ip = none;
}

create_operator_answers_example :
    CreateAnswer sha256 named 8 "22" with_acme (create_operator sha256 named 8 "22" with_acme)
create_operator_answers_example = create_operator_answers sha256 named 8 "22" with_acme

abbrev sessions : Sessions
sessions = record {
  nonces = [];
  tokens = ("t", record { value = "0xaabbccddee"; expires = 100 }) ∷ [];
  table = none;
}

create_for_wallet_answers_example :
    ServiceAnswer sha256 undefined 8 "22" sessions
      (some "t")
      with_acme
      (create_for_wallet sha256 sessions (some "t") undefined 8 "22" with_acme)
create_for_wallet_answers_example =
    create_for_wallet_answers sha256 undefined 8 "22" sessions (some "t") with_acme

-- The engine before the suspension of the operator 1.
abbrev both : Engine
both = record suspended {
  db = record suspended.db {
    operators =
        record {
          id = 1;
          name = "acme";
          api_key_hash = "fsk_00";
          created_at = 7;
          owner_wallet = none;
          active = 1;
        }
        ∷ record {
          id = 0;
          name = "base";
          api_key_hash = "fsk_11";
          created_at = 7;
          owner_wallet = none;
          active = 1;
        }
        ∷ [];
  };
}

set_active-operator_guard_example : ◌≢◌ {A = ℕ} 0 1
unfolding set_active operator_guard operator_by_key
set_active-operator_guard_example =
    set_active-operator_guard sha256 1 (object (field "active" (boolean false) end)) both suspended
      (from "fsk_11")
      (record {
        id = 0;
        name = "base";
        api_key_hash = "fsk_11";
        created_at = 7;
        owner_wallet = none;
        active = 1;
      })
      refl refl
