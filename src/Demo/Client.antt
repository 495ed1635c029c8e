-- ===== src/Demo/Client.antt =====
-- How the programs beside the server call it: a status that is no success is a value (`apiRaw` of
-- demo/config.mjs) or an exception (`api`, and `get` of web/widget/widget-core.mjs). The call itself
-- is the server's own handler, for a request that the rate limit lets through.
pub mod Found
use foreseer.Base.{
  ℕ, String, Bool, Option, none, some, List, [], ◌∷◌, map, find, ◌≡◌, refl, arith, ◌≤◌, ◌<◌, zero,
  suc, ◌+◌, take, get_elem?, ◌==◌, nat_eq, inl, inr, Bool-cases, ap, ◌∙◌, sym, drop, filter, count,
}
use foreseer.Base.Text.{decimal}
use foreseer.Base.Exec.{Result, ok, err, Exec}
use foreseer.Json.{Value, undefined, string}
use foreseer.Sdk.{Sdk, Domain, Receipt}
use foreseer.Db.{Db, EpochRow, ReceiptRow, epoch_by_id, order_by_bet, in_epoch}
use foreseer.Db.Receipts.{
  AreConsecutive, ReceiptsAreNumbered, oldest_first, order_by_bet-oldest_first,
  oldest_first-AreConsecutive, find-AreConsecutive,
}
use foreseer.Engine.{Engine, Config, receipt_page, receipt_rows, row_to_receipt}
use foreseer.Api.Params.{int_param, int_query, signed_of, natural_of, read_digits}
use foreseer.Api.Params.Decimal.{int_param-decimal}
use foreseer.Api.Pages.{
  ReceiptJson, receipt_json, EpochJson, epoch_json, ReceiptsPage, page_of, by_id, receipts, proof,
}

abbrev pub to_option : {A : Type 0} → Result A → Option A
to_option (ok a) = some a
to_option (err e) = none

-- `apiRaw`: what the server wrote before it failed stays written.
abbrev pub api_raw : {S A : Type 0} → Exec S A → Exec S (Option A)
api_raw m s = let (r, s') = m s in (ok (to_option r), s')

-- The domain that the clients build from a chain id.
abbrev pub client_domain : ℕ → Domain
client_domain chain_id = record { name = "Foreseer"; version = "0"; chain_id = chain_id }

-- `(page.json.receipts ?? [])`.
abbrev pub receipts_of : Option ReceiptsPage → List ReceiptJson
receipts_of none = []
receipts_of (some page) = page.receipts

-- `.find((r) => r.receipt.betId === betId)`.
abbrev pub entry_in : ℕ → List ReceiptJson → Option ReceiptJson
entry_in bet_id = find (λ r. r.receipt.bet_id == bet_id)
