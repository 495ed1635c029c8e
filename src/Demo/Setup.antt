-- ===== src/Demo/Setup.antt =====
-- demo/setup.mjs: provisions the operator of the demo casino, with the settings of demo/config.mjs. The
-- wallets (the package ethers) and the chain are parameters; a variable is read from the file .env that
-- the script writes.
pub mod Again
use Prim.Native.String.{◌++◌}
use foreseer.Base.{
  ℕ, ◌==◌, nat_eq, string_eq, String, Bool, true, false, Option, none, some, List, ltb,
  if◌then◌else◌,
}
use foreseer.Base.Text.{to_lower_case}
use foreseer.Base.Exec.{
  Error, Result, ok, err, api, thrown, Exec, pure, lift, gets, modify, or_raise, ◌>>=◌, ◌>>◌,
}
use foreseer.Json.{Value, string, object, field, end}
use foreseer.Db.{Db, OperatorRow}
use foreseer.Engine.{Engine}
use foreseer.Guards.{Request, operator_guard, admin_guard}
use foreseer.Api.Filter.{error_response}
use foreseer.Api.Billing.{Balance, balance}
use foreseer.Api.Operators.{Created, create_operator, take_chars, drop_chars}

-- new Wallet(key), which is `none` where it throws, and Wallet.createRandom() as an argument.
pub record Wallet : Type 0 where
  pub private_key : String
  pub address : String

-- JsonRpcProvider.getBalance, and a transaction that is waited for, with its hash.
pub record Provider (C : Type 0) : Type 0 where
  pub get_balance : String → Exec C ℕ
  pub send : (key to : String) (value : ℕ) → Exec C String

pub record Env : Type 0 where
  pub admin_key : Option String
  pub operator_key : Option String
  pub wallet_key : Option String
  pub funder_key : Option String

pub record Host (C : Type 0) : Type 0 where
  pub server : Engine
  pub chain : C
  pub env : Env

-- `cfg.adminKey`.
abbrev pub admin_key_or_default : Option String → String
admin_key_or_default none = "dev-admin-key"
admin_key_or_default (some key) = key

-- A variable as a condition: an empty text is none.
abbrev pub if_set : Option String → Option String
if_set none = none
if_set (some s) = if s == "" then none else some s

abbrev pub wallet_or : (String → Option Wallet) → Wallet → Option String → Option Wallet
wallet_or wallet_of fresh none = some fresh
wallet_or wallet_of fresh (some key) = wallet_of key

unfoldable pub operator_name : String → String
unfolding take_chars drop_chars
operator_name owner = "roulette-demo-" ++ take_chars 8 (drop_chars 2 owner)

abbrev pub operator_body : String → Value
operator_body owner =
    object (field "name" (string (operator_name owner)) (field "ownerWallet" (string owner) end))

abbrev pub no_headers : Request
no_headers = record {
  admin_key = none;
  api_key = none;
  forwarded_for = none;
  owner_token = none;
  ip = none;
}

abbrev pub answers_with : {A : Type 0} → ℕ → Result A → Bool
answers_with n (ok a) = false
answers_with n (err e) = (error_response e).status == n

abbrev pub one_ether : ℕ
one_ether = 1000000000000000000

-- `balance < parseEther("1") && cfg.funderKey`.
abbrev pub funder_of : ℕ → Option String → Option String
funder_of balance key = if ltb balance one_ether then key else none

abbrev pub throwing : {A : Type 0} → Result A → Result A
throwing (ok a) = ok a
throwing (err e) = err thrown

abbrev pub at_server : {C A : Type 0} → Exec Engine A → Exec (Host C) A
at_server m w = let (r, s) = m w.server in (r, record w { server = s })

abbrev pub at_chain : {C A : Type 0} → Exec C A → Exec (Host C) A
at_chain m w = let (r, c) = m w.chain in (r, record w { chain = c })

-- `api`, which throws on every error of the server.
abbrev pub calling : {A : Type 0} → Exec Engine A → Exec Engine A
calling m s = let (r, s') = m s in (throwing r, s')

-- The settings that are written to .env.
abbrev pub settings : Env → String → Wallet → Env
settings env key wallet = record {
  admin_key = some (admin_key_or_default env.admin_key);
  operator_key = some key;
  wallet_key = some wallet.private_key;
  funder_key = if_set env.funder_key;
}

module _ {C : Type 0} (provider : Provider C) where
  -- The wallet gets five coins of the funder if it has less than one.
  unfoldable pub fund : Wallet → Option String → Exec C (Unit {0})
  fund wallet funder_key = do
    balance ← provider.get_balance wallet.address
    elim (funder_of balance funder_key) [
      | none ↦ pure tt
      | some key ↦ do
        provider.send key wallet.address 5000000000000000000
        provider.get_balance wallet.address
        pure tt
    ]

module _ (sha256 : String → String) (server_key : String) (price : ℕ) where
  -- GET /billing/balance behind OperatorGuard.
  abbrev pub balance_as : String → Exec Engine Balance
  balance_as key = do
    row ← (λ s. (operator_guard sha256 s.db (record no_headers { api_key = some key }), s))
    balance price row.id

  -- `apiRaw` of the balance: a key that the server does not know is dropped.
  unfoldable pub keep_key : Option String → Exec Engine (Option String)
  keep_key none s = (ok none, s)
  keep_key (some key) s =
      let (r, s') = balance_as key s in (ok (if answers_with 401 r then none else some key), s')

  -- POST /admin/operators behind AdminGuard.
  abbrev pub create_as_admin : String → Value → ℕ → String → Exec Engine Created
  create_as_admin admin_key body now random = do
    lift (admin_guard sha256 server_key (record no_headers { admin_key = some admin_key }))
    create_operator sha256 body now random

  abbrev pub new_operator : String → String → ℕ → String → Exec Engine String
  new_operator admin_key owner now random = do
    created ← calling (create_as_admin admin_key (operator_body owner) now random)
    pure created.api_key

  -- The key that the casino has after the first half of the script.
  unfoldable pub provision : Option String → String → String → ℕ → String → Exec Engine String
  unfolding operator_name
  provision stored admin_key owner now random = do
    kept ← keep_key stored
    elim kept [ some key ↦ pure key | none ↦ new_operator admin_key owner now random ]

  module _ {C : Type 0} (wallet_of : String → Option Wallet) (provider : Provider C) where
    unfoldable pub setup : Wallet → ℕ → String → Exec (Host C) (Unit {0})
    unfolding provision fund
    setup fresh now random = do
      env ← gets (λ w. w.env)
      wallet ← or_raise (wallet_or wallet_of fresh (if_set env.wallet_key)) thrown
      key ← at_server (
          provision env.operator_key (admin_key_or_default env.admin_key)
            (to_lower_case wallet.address) now random)
      at_chain (fund provider wallet (if_set env.funder_key))
      modify (λ w. record w { env = settings env key wallet })
