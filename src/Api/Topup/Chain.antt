-- ===== src/Api/Topup/Chain.antt =====
-- rpcChain of server/src/wallet.ts: what the answers of the chain node to the two requests make of a
-- transaction. An answer is an argument; BigInt of the value has been read.
use foreseer.Base.{
  ◌≡◌, String, Bool, true, false, ◌&&◌, Option, none, some, arith, is_some, ◌==◌, string_eq, inl,
  inr, Option-cases,
}
use foreseer.Base.Int.{ℤ}
use foreseer.Base.Exec.{Result, Result-cases, ok, err, api}
use foreseer.Base.Text.{to_lower_case}
use foreseer.Api.Topup.{ChainTx}

pub record RpcTx : Type 0 where
  pub from : String
  pub to : Option String
  pub value : ℤ

pub record RpcReceipt : Type 0 where
  pub block_number : Option String
  pub status : String

-- A request that fails, one that is answered with another status than 200, and an answer with its
-- members `error` (whether it is there) and `result`.
pub data Answered (A : Type 0) : Type 0 where
  unreachable not_ok : Answered A
  body : (has_error : Bool) → (result : Option A) → Answered A

abbrev pub rpc : {A : Type 0} → Answered A → Result (Option A)
rpc unreachable = err (api 502 "chain rpc unavailable")
rpc not_ok = err (api 502 "chain rpc unavailable")
rpc (body true result) = err (api 502 "chain rpc error")
rpc (body false result) = ok result

abbrev pub lower_or_none : Option String → Option String
lower_or_none none = none
lower_or_none (some to) = some (to_lower_case to)

abbrev pub is_mined : Option RpcReceipt → Bool
is_mined none = false
is_mined (some receipt) = is_some receipt.block_number

abbrev pub has_status : Option RpcReceipt → Bool
has_status none = false
has_status (some receipt) = receipt.status == "0x1"

abbrev pub chain_tx : RpcTx → Option RpcReceipt → ChainTx
chain_tx tx receipt = record {
  from = to_lower_case tx.from;
  to = lower_or_none tx.to;
  value_wei = tx.value;
  confirmed = is_mined receipt;
  success = is_mined receipt && has_status receipt;
}

abbrev pub with_receipt : RpcTx → Result (Option RpcReceipt) → Result (Option ChainTx)
with_receipt tx (err e) = err e
with_receipt tx (ok receipt) = ok (some (chain_tx tx receipt))

-- The receipt is asked for only where the transaction is known.
abbrev pub tx_then : Result (Option RpcTx) → Answered RpcReceipt → Result (Option ChainTx)
tx_then (err e) receipt = err e
tx_then (ok none) receipt = ok none
tx_then (ok (some tx)) receipt = with_receipt tx (rpc receipt)

unfoldable pub fetch_tx : Answered RpcTx → Answered RpcReceipt → Result (Option ChainTx)
fetch_tx tx receipt = tx_then (rpc tx) receipt

chain_tx-confirmed :
    (tx : RpcTx) (receipt : Option RpcReceipt)
    → (chain_tx tx receipt).success ≡ true
    → (chain_tx tx receipt).confirmed ≡ true
chain_tx-confirmed tx receipt h = ground arith

-- A transaction that the gateway reports as successful is reported as confirmed too.
pub fetch_tx-confirmed :
    (tx : Answered RpcTx) (receipt : Answered RpcReceipt) (found : ChainTx)
    → fetch_tx tx receipt ≡ ok (some found)
    → found.success ≡ true
    → found.confirmed ≡ true
unfolding fetch_tx
fetch_tx-confirmed tx receipt found h s = elim (Result-cases (rpc tx)) [
  | inl (e, q) ↦ absurd (ground arith)
  | inr (o, q) ↦ elim (Option-cases o) [
    | inl n ↦ absurd (ground arith)
    | inr (t, n) ↦ elim (Result-cases (rpc receipt)) [
      | inl (e, r) ↦ absurd (ground arith)
      | inr (r', r) ↦ ground (arith, chain_tx-confirmed t r')
    ]
  ]
]
