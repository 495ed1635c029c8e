-- ===== src/Api/Topup.antt =====
-- BillingController.topup: a transaction to the treasury is credited to the operator of its sender.
-- The handler waits for the chain between `topup_hash` and `credit`, so other calls may come between.
pub mod Once
pub mod Chain
use foreseer.Base.{
  ℕ, String, Bool, true, false, ◌||◌, Option, none, some, List, [], ◌∷◌, any, ltb, ◌==◌, nat_eq,
  string_eq, not,
}
use foreseer.Base.Int.{ℤ, pos, negsuc}
use foreseer.Base.Exec.{
  Result, ok, err, api, Exec, pure, lift, gets, modify, guard, or_raise, ◌>>=◌, ◌>>◌,
}
use foreseer.Json.{Value, string, get}
use foreseer.Db.{Db, OperatorRow, DepositRow}
use foreseer.Engine.{Engine}
use foreseer.Funds.{Funds, operator_funds}
use foreseer.Api.Rules.{is_hash}

pub record ChainTx : Type 0 where
  pub from : String
  pub to : Option String
  pub value_wei : ℤ
  pub confirmed : Bool
  pub success : Bool

-- `fetch_tx` is one answer of the chain to each hash.
pub record ChainGateway : Type 0 where
  pub treasury : String
  pub fetch_tx : String → Result (Option ChainTx)

pub record Credited : Type 0 where
  pub credited_wei : ℕ
  pub funds : Funds

-- `tx.valueWei`, unless `tx.valueWei <= 0n`.
abbrev pub positive : ℤ → Option ℕ
positive (pos n) = elim (ltb 0 n) [ true ↦ some n | false ↦ none ]
positive (negsuc n) = none

abbrev pub pays : String → Option String → Bool
pays treasury none = false
pays treasury (some to) = to == treasury

-- INSERT INTO deposits; `none` on a taken primary key.
abbrev pub insert_deposit : DepositRow → Db → Option Db
insert_deposit row db = elim (any (λ d. d.tx_hash == row.tx_hash) db.deposits) [
  | true ↦ none
  | false ↦ some (record db { deposits = row ∷ db.deposits })
]

abbrev pub hash_of : Value → Result String
hash_of (string s) = elim (is_hash s) [
  | true ↦ ok s
  | false ↦ err (api 400 "txHash must be a 0x hash")
]
hash_of _ = err (api 400 "txHash must be a 0x hash")

-- The part before the chain is asked.
abbrev pub topup_hash : Option String → Option ChainGateway → Value → Result (ChainGateway × String)
topup_hash none chain body = err (api 400 "operator has no owner wallet")
topup_hash (some owner) none body = err (api 503 "treasury not configured")
topup_hash (some owner) (some chain) body = elim (hash_of (get body "txHash")) [
  | ok hash ↦ ok (chain, hash)
  | err e ↦ err e
]

abbrev pub is_owner : Option String → String → Bool
is_owner none from = false
is_owner (some wallet) from = from == wallet

-- The part after the chain has answered.
unfoldable pub credit : OperatorRow → String → String → Option ChainTx → ℕ → Exec Engine Credited
credit operator treasury hash fetched now = do
  tx ← or_raise fetched (api 404 "transaction not found")
  guard tx.confirmed (api 409 "transaction not confirmed yet")
  guard tx.success (api 400 "transaction failed onchain")
  guard (pays treasury tx.to) (api 400 "transaction does not pay the treasury")
  guard (is_owner operator.owner_wallet tx.from)
      (api 403 "transaction not sent by the owner wallet")
  value ← or_raise (positive tx.value_wei) (api 400 "transaction transfers no value")
  inserted ← gets (λ s.
      insert_deposit
        (record {
          tx_hash = hash;
          operator_id = operator.id;
          from_wallet = tx.from;
          amount_wei = value;
          created_at = now;
        })
        s.db)
  db ← or_raise inserted (api 409 "transaction already credited")
  modify (λ s. record s { db = db })
  funds ← gets (λ s. operator_funds s.db operator.id)
  pure (record { credited_wei = value; funds = funds })

-- POST /billing/topup, where no other call comes between.
unfoldable pub topup : OperatorRow → Option ChainGateway → Value → ℕ → Exec Engine Credited
unfolding credit
topup operator chain body now = do
  asked ← lift (topup_hash operator.owner_wallet chain body)
  fetched ← lift (asked.0.fetch_tx asked.1)
  credit operator asked.0.treasury asked.1 fetched now
