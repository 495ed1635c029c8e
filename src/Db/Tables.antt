-- ===== src/Db/Tables.antt =====
-- server/src/db.ts: the tables as lists of rows, newest first, and the statements of the server that
-- read or write one table. The order of a list is not visible: statements that order say so.
use foreseer.Base.{
  ℕ, suc, String, Bool, ◌&&◌, Option, none, some, List, [], ◌∷◌, map, ltb, leb, ◌==◌, nat_eq,
  string_eq, if◌then◌else◌, filter, find, any, is_some, not,
}
use foreseer.Json.{Value}

pub record OperatorRow : Type 0 where
  pub id : ℕ
  pub name : String
  pub api_key_hash : String
  pub created_at : ℕ
  pub owner_wallet : Option String
  pub active : ℕ

-- `amount_wei` is the number that the column holds in decimal.
pub record DepositRow : Type 0 where
  pub tx_hash : String
  pub operator_id : ℕ
  pub from_wallet : String
  pub amount_wei : ℕ
  pub created_at : ℕ

-- `rule_json` is the document that the column holds as JSON text.
pub record RuleRow : Type 0 where
  pub rule_hash : String
  pub operator_id : ℕ
  pub rule_json : Value
  pub created_at : ℕ

pub record EpochRow : Type 0 where
  pub epoch_id : ℕ
  pub seed_commit : String
  pub server_seed : String
  pub opened_at : ℕ
  pub closed_at : Option ℕ
  pub merkle_root : Option String
  pub receipt_count : Option ℕ
  pub close_signature : Option String

-- `draws` is the list that the column holds as JSON text, `price_wei` the number in decimal.
pub record ReceiptRow : Type 0 where
  pub epoch_id : ℕ
  pub bet_id : ℕ
  pub operator_id : ℕ
  pub client_seed : String
  pub nonce : ℕ
  pub rule_hash : String
  pub draws : List ℕ
  pub win : ℕ
  pub payout_bp : ℕ
  pub timestamp : ℕ
  pub signature : String
  pub price_wei : ℕ

-- The table `sessions` is the WalletSessions' own: Wallet.antt keeps it.
pub record SessionRow : Type 0 where
  pub token : String
  pub wallet : String
  pub expires : ℕ

-- `last_operator_id` is the AUTOINCREMENT counter of the table `operators`.
pub record Db : Type 0 where
  pub operators : List OperatorRow
  pub last_operator_id : ℕ
  pub rules : List RuleRow
  pub epochs : List EpochRow
  pub deposits : List DepositRow
  pub receipts : List ReceiptRow

-- The tables as openDb creates them.
abbrev pub empty : Db
empty = record {
  operators = [];
  last_operator_id = 0;
  rules = [];
  epochs = [];
  deposits = [];
  receipts = [];
}

-- ORDER BY bet_id.
abbrev pub insert_by_bet : ReceiptRow → List ReceiptRow → List ReceiptRow
insert_by_bet r [] = r ∷ []
insert_by_bet r (x ∷ xs) =
    let later = insert_by_bet r xs in if leb r.bet_id x.bet_id then r ∷ x ∷ xs else x ∷ later

unfoldable pub order_by_bet : List ReceiptRow → List ReceiptRow
order_by_bet [] = []
order_by_bet (r ∷ rs) = insert_by_bet r (order_by_bet rs)

-- SELECT * FROM epochs WHERE closed_at IS NULL ORDER BY epoch_id DESC LIMIT 1.
abbrev pub latest : List EpochRow → Option EpochRow
latest [] = none
latest (e ∷ es) = elim (latest es) [
  | none ↦ some e
  | some f ↦ if ltb e.epoch_id f.epoch_id then some f else some e
]

abbrev pub is_open : EpochRow → Bool
is_open e = not (is_some e.closed_at)

unfoldable pub open_epoch : List EpochRow → Option EpochRow
open_epoch es = latest (filter is_open es)

-- SELECT * FROM epochs WHERE epoch_id = ?.
unfoldable pub epoch_by_id : ℕ → List EpochRow → Option EpochRow
epoch_by_id i = find (λ e. e.epoch_id == i)

-- SELECT MAX(epoch_id) FROM epochs.
unfoldable pub max_epoch_id : List EpochRow → Option ℕ
max_epoch_id [] = none
max_epoch_id (e ∷ es) = elim (max_epoch_id es) [
  | none ↦ some e.epoch_id
  | some m ↦ if ltb e.epoch_id m then some m else some e.epoch_id
]

-- INSERT INTO epochs: `none` where the primary key is taken.
unfoldable pub insert_epoch : EpochRow → Db → Option Db
insert_epoch e db =
    if any (λ f. f.epoch_id == e.epoch_id) db.epochs
    then none
    else some (record db { epochs = e ∷ db.epochs })

-- UPDATE epochs SET closed_at, merkle_root, receipt_count, close_signature WHERE epoch_id = ?.
unfoldable pub set_closed : ℕ → ℕ → String → ℕ → String → List EpochRow → List EpochRow
set_closed i now root n signature = map λ e.
    if e.epoch_id == i
    then record e {
      closed_at = some now;
      merkle_root = some root;
      receipt_count = some n;
      close_signature = some signature;
    }
    else e

abbrev pub in_epoch : ℕ → ReceiptRow → Bool
in_epoch i r = r.epoch_id == i

abbrev pub of_player : ℕ → String → ReceiptRow → Bool
of_player i client_seed r = r.epoch_id == i && r.client_seed == client_seed

-- SELECT COALESCE(MAX(nonce) + 1, 0) FROM receipts WHERE epoch_id = ? AND client_seed = ?.
unfoldable pub next_nonce : ℕ → String → List ReceiptRow → ℕ
next_nonce i client_seed [] = 0
next_nonce i client_seed (r ∷ rs) =
    let n = next_nonce i client_seed rs in
    if of_player i client_seed r && leb n r.nonce then suc r.nonce else n

-- INSERT INTO receipts: `none` where the primary key (epoch_id, bet_id) is taken.
unfoldable pub insert_receipt : ReceiptRow → Db → Option Db
insert_receipt r db =
    if any (λ q. q.epoch_id == r.epoch_id && q.bet_id == r.bet_id) db.receipts
    then none
    else some (record db { receipts = r ∷ db.receipts })

-- SELECT * FROM rules WHERE rule_hash = ?.
unfoldable pub rule_by_hash : String → List RuleRow → Option RuleRow
rule_by_hash hash = find (λ r. r.rule_hash == hash)

-- INSERT INTO rules ... ON CONFLICT(rule_hash) DO NOTHING.
unfoldable pub insert_rule : RuleRow → List RuleRow → List RuleRow
insert_rule row rules = if any (λ r. r.rule_hash == row.rule_hash) rules then rules else row ∷ rules
