-- ===== src/Api/Play.antt =====
-- PlayController: POST /play.
pub mod Kept
pub mod Signed
use foreseer.Base.{ℕ, String, Bool, true, false, Option, none, some, if◌then◌else◌, not, ltb}
use foreseer.Base.Int.{ℤ, pos, ltb_ℤ}
use foreseer.Base.Exec.{Result, ok, err, api, Exec, lift, gets, guard, ◌>>=◌, ◌>>◌}
use foreseer.Json.{Value, undefined, integer, string, get, is_safe_integer}
use foreseer.Sdk.{Bytes, Sdk}
use foreseer.Db.{OperatorRow}
use foreseer.Engine.{Engine, Config, Played, play}
use foreseer.Funds.{Funds, operator_funds}
use foreseer.Api.Rules.{load_rule}

-- `typeof value !== "string"` and the value.
abbrev pub text_or : Value → Result String → Result String
text_or (string s) otherwise = ok s
text_or _ otherwise = otherwise

-- `b.nonce !== undefined && !Number.isSafeInteger(b.nonce)`.
abbrev pub nonce_of : Value → Result (Option ℤ)
nonce_of undefined = ok none
nonce_of (integer z) =
    if is_safe_integer (integer z) then ok (some z) else err (api 400 "bad nonce")
nonce_of _ = err (api 400 "bad nonce")

-- Wallet-tied operators are prepaid, key-only operators are invoiced.
abbrev pub is_prepaid : Option String → ℕ → Bool
is_prepaid none price = false
is_prepaid (some wallet) price = ltb 0 price

abbrev pub can_pay : Bool → ℕ → Funds → Bool
can_pay false price funds = true
can_pay true price funds = not (ltb_ℤ funds.balance_wei (pos price))

module _ (sdk : Sdk) (config : Config) (price : ℕ) where
  -- What the handler does once it has the three members of the body.
  abbrev pub play_checked :
      OperatorRow → String → String → Option ℤ → ℕ → Bytes → Exec Engine Played
  play_checked operator client_seed hash nonce now seed = do
    funds ← gets (λ s. operator_funds s.db operator.id)
    guard (can_pay (is_prepaid operator.owner_wallet price) price funds)
        (api 402 "insufficient balance, top up via POST /billing/topup")
    loaded ← gets (λ s. load_rule s.db hash)
    rule ← lift loaded
    play sdk config
        (record {
          operator_id = operator.id;
          client_seed = client_seed;
          rule = rule;
          nonce = nonce;
          price_wei = some price;
        })
        now seed

  -- POST /play, behind the guards.
  unfoldable pub play_handler : OperatorRow → Value → ℕ → Bytes → Exec Engine Played
  play_handler operator body now seed = do
    client_seed ← lift (text_or (get body "clientSeed") (err (api 400 "clientSeed required")))
    hash ← lift (text_or (get body "ruleHash") (err (api 400 "ruleHash required")))
    nonce ← lift (nonce_of (get body "nonce"))
    play_checked operator client_seed hash nonce now seed
