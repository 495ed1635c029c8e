-- ===== src/Engine/Rows.antt =====
-- The statements and checks that the methods of the class Engine share.
use foreseer.Base.{
  ℕ, String, Bool, true, false, Option, none, some, List, ◌==◌, nat_eq, filter, count, take, drop,
  not,
}
use foreseer.Base.Int.{ℤ, pos, negsuc}
use foreseer.Base.Exec.{api, thrown, Exec, gets, modify, or_raise, ok, err, ◌>>=◌}
use foreseer.Db.{
  Db, EpochRow, ReceiptRow, order_by_bet, insert_epoch, in_epoch, of_player, insert_receipt,
}
use foreseer.Engine.Data.{Engine}

abbrev pub or_default {ℓ} : {A : Type ℓ} → Option A → A → A
or_default none d = d
or_default (some a) d = a

-- `input.nonce !== undefined && input.nonce !== nonce`.
abbrev pub differs : Option ℤ → ℕ → Bool
differs none n = false
differs (some (pos m)) n = not (m == n)
differs (some (negsuc m)) n = true

-- `assertClientSeed`, with what it throws turned into a bad request.
abbrev pub assert_client_seed : {S : Type 0} → Option String → Exec S (Unit {0})
assert_client_seed none s = (ok tt, s)
assert_client_seed (some message) s = (err (api 400 message), s)

unfoldable pub receipt_rows : ℕ → Option String → Db → List ReceiptRow
receipt_rows i none db = order_by_bet (filter (in_epoch i) db.receipts)
receipt_rows i (some client_seed) db = order_by_bet (filter (of_player i client_seed) db.receipts)

unfoldable pub receipt_page : ℕ → Option String → ℕ → ℕ → Db → List ReceiptRow × ℕ
unfolding receipt_rows
receipt_page i none limit offset db =
    (take limit (drop offset (receipt_rows i none db)), count (in_epoch i) db.receipts)
receipt_page i (some client_seed) limit offset db = (
  take limit (drop offset (receipt_rows i (some client_seed) db)),
  count (of_player i client_seed) db.receipts,
)

-- `this.db.prepare("INSERT INTO epochs ...").run(...)`, which throws on a taken key.
abbrev pub run_insert_epoch : EpochRow → Exec Engine (Unit {0})
run_insert_epoch row = do
  db ← gets (λ s. insert_epoch row s.db)
  inserted ← or_raise db thrown
  modify (λ s. record s { db = inserted })

abbrev pub run_insert_receipt : ReceiptRow → Exec Engine (Unit {0})
run_insert_receipt row = do
  db ← gets (λ s. insert_receipt row s.db)
  inserted ← or_raise db thrown
  modify (λ s. record s { db = inserted })
