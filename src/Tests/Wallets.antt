-- ===== src/Tests/Wallets.antt =====
-- The theorems about the wallet sessions, for a package that recovers one wallet from any signature.
use foreseer.Base.{◌≡◌, ◌↔◌, refl, String, some, List, [], ◌∷◌, arith, string_eq}
use foreseer.Base.Exec.{ok, err, api}
use foreseer.Base.JsMap.{get, set, delete}
use foreseer.Sdk.{Bytes, Sdk}
use foreseer.Sdk.Toy.{toy}
use foreseer.Wallet.{
  Sessions, Session, Ttl, drop_expired, evict, prune, new_sessions, wallet_for, login,
}
use foreseer.Wallet.Text.{recover_wallet}
use foreseer.Wallet.Login.{MayLogIn, after_login, login_iff, login_once}
use foreseer.Wallet.Restart.{SessionCall, asked, signed, restarted, session_run, wallet_for-restart}

abbrev pub alice : String
alice = "0xaaaaaaaaaaaaaaaaaaaaaaaaaaaaaaaaaaaaaaaa"

abbrev pub signature : String
signature =
    "0xabababababababababababababababababababababababababababababababababababababababababababababababababababababababababababababababab1b"

abbrev pub signing : Sdk
signing = record toy { recover_signer = λ digest s. some alice }

abbrev pub same : Bytes → Bytes
same b = b

abbrev pub ttl : Ttl
ttl = record { nonce = 300; token = 86400 }

abbrev before : Sessions
before = record {
  nonces = (alice, record { value = "n1"; expires = 310 }) ∷ [];
  tokens = [];
  table = some [];
}

abbrev answer : Session
answer = record { token = "t1"; expires_at = 86420 }

abbrev later : Sessions
later = record {
  nonces = [];
  tokens = ("t1", record { value = alice; expires = 86420 }) ∷ [];
  table = some (record { token = "t1"; wallet = alice; expires = 86420 } ∷ []);
}

logged_in : login signing same ttl alice signature 20 "t1" before ≡ (ok answer, later)
unfolding login prune drop_expired evict get set delete recover_wallet
logged_in = refl

login_iff_example : (login signing same ttl alice signature 20 "t1" before ≡ (ok answer, later)) ↔ (
    MayLogIn signing same ttl alice signature 20 before
    × (answer ≡ record { token = "t1"; expires_at = 86420 })
    × (later ≡ after_login signing same ttl alice 20 "t1" before))
login_iff_example = login_iff signing same ttl alice signature 20 "t1" before later answer

login_once_example :
    login signing same ttl alice signature 21 "t2" later
    ≡ (err (api 401 "no pending nonce, request a new one"), later)
login_once_example =
    login_once signing same ttl alice signature signature 20 21 "t1" "t2" before later answer
      logged_in

-- Alice logs in once more, and the server restarts.
abbrev others : List SessionCall
others = asked alice 30 "n2" ∷ signed alice signature 31 "t2" ∷ restarted 35 ∷ []

wallet_for-restart_example :
    wallet_for 50 "t1" (new_sessions 40 (session_run signing same ttl others later).table)
    ≡ some alice
wallet_for-restart_example =
    wallet_for-restart signing same ttl alice signature 20 40 50 "t1" before later answer [] others
      refl logged_in (omega arith, refl, tt) (omega arith) (omega arith)
