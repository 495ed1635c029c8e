-- ===== src/Api/Billing.antt =====
-- The accounts that the server shows: AdminController.billing, BillingController.balance and me.
pub mod Sums
use foreseer.Base.{
  ℕ, zero, suc, ◌+◌, String, Bool, true, false, ◌&&◌, not, Option, none, some, List, [], ◌∷◌, map,
  filter, any, count, take, length, ltb, leb, ◌==◌, nat_eq, string_eq, if◌then◌else◌,
}
use foreseer.Base.Int.{ℤ}
use foreseer.Base.Exec.{Result, ok, err, api, Exec, pure, lift, gets, ◌>>=◌, ◌>>◌}
use foreseer.Json.{Value}
use foreseer.Db.{Db, OperatorRow, DepositRow, ReceiptRow}
use foreseer.Engine.{Engine}
use foreseer.Funds.{Range, Funds, of_operator, play_charges, operator_funds}
use foreseer.Wallet.{Sessions}
use foreseer.Api.Params.{max_safe_integer, int_query}
use foreseer.Api.Operators.{has_owner, wallet_of}

-- SUM(win) and SUM(payout_bp).
abbrev pub sum_win : List ReceiptRow → ℕ
sum_win [] = 0
sum_win (r ∷ rs) = r.win + sum_win rs

abbrev pub sum_payout : List ReceiptRow → ℕ
sum_payout [] = 0
sum_payout (r ∷ rs) = r.payout_bp + sum_payout rs

-- ORDER BY id.
abbrev pub insert_by_id : OperatorRow → List OperatorRow → List OperatorRow
insert_by_id o [] = o ∷ []
insert_by_id o (x ∷ xs) =
    let later = insert_by_id o xs in if leb o.id x.id then o ∷ x ∷ xs else x ∷ later

unfoldable pub order_by_id : List OperatorRow → List OperatorRow
order_by_id [] = []
order_by_id (o ∷ os) = insert_by_id o (order_by_id os)

pub record BillingRow : Type 0 where
  pub operator_id : ℕ
  pub name : String
  pub owner_wallet : Option String
  pub plays : ℕ
  pub wins : ℕ
  pub payout_bp_sum : ℕ
  pub amount_due_wei : ℕ
  pub deposited_wei : ℕ
  pub balance_wei : ℤ

pub record Totals : Type 0 where
  pub plays : ℕ
  pub amount_due_wei : ℕ
  pub deposited_wei : ℕ

pub record Billing : Type 0 where
  pub from : ℕ
  pub to : ℕ
  pub price_per_play_wei : ℕ
  pub operators : List BillingRow
  pub totals : Totals

unfoldable pub billing_row : Db → Range → OperatorRow → BillingRow
billing_row db range o =
    let rows = filter (of_operator o.id (some range)) db.receipts in
    let funds = operator_funds db o.id in
    record {
      operator_id = o.id;
      name = o.name;
      owner_wallet = o.owner_wallet;
      plays = length rows;
      wins = sum_win rows;
      payout_bp_sum = sum_payout rows;
      amount_due_wei = (play_charges db o.id (some range)).wei;
      deposited_wei = funds.deposited_wei;
      balance_wei = funds.balance_wei;
    }

-- operators.reduce(...).
unfoldable pub add_rows : Totals → List BillingRow → Totals
add_rows acc [] = acc
add_rows acc (row ∷ rows) =
    add_rows
      (record {
        plays = acc.plays + row.plays;
        amount_due_wei = acc.amount_due_wei + row.amount_due_wei;
        deposited_wei = acc.deposited_wei + row.deposited_wei;
      })
      rows

abbrev pub billing_of : Db → Range → ℕ → Billing
billing_of db range price =
    let rows = map (billing_row db range) (order_by_id db.operators) in
    record {
      from = range.from;
      to = range.to;
      price_per_play_wei = price;
      operators = rows;
      totals = add_rows (record { plays = 0; amount_due_wei = 0; deposited_wei = 0 }) rows;
    }

-- GET /admin/billing.
unfoldable pub billing : ℕ → Value → Value → ℕ → Exec Engine Billing
billing price from_raw to_raw now = do
  from ← lift (int_query from_raw 0 0 max_safe_integer "from must be >= 0")
  to ← lift (int_query to_raw now 0 max_safe_integer "to must be >= 0")
  gets (λ s. billing_of s.db (record { from = from; to = to }) price)

pub record Balance : Type 0 where
  pub price_per_play_wei : ℕ
  pub funds : Funds

-- GET /billing/balance, for the operator `id`.
unfoldable pub balance : ℕ → ℕ → Exec Engine Balance
balance price id = gets (λ s. record { price_per_play_wei = price; funds = operator_funds s.db id })

-- COUNT(DISTINCT epoch_id).
abbrev pub distinct_epochs : List ReceiptRow → ℕ
distinct_epochs [] = 0
distinct_epochs (r ∷ rs) =
    let rest = distinct_epochs rs in
    if any (λ q. q.epoch_id == r.epoch_id) rs then rest else suc rest

-- ORDER BY created_at DESC, later rows first among equal times.
abbrev pub insert_by_created : DepositRow → List DepositRow → List DepositRow
insert_by_created d [] = d ∷ []
insert_by_created d (x ∷ xs) =
    let later = insert_by_created d xs in
    if leb x.created_at d.created_at then d ∷ x ∷ xs else x ∷ later

unfoldable pub newest_deposits : List DepositRow → List DepositRow
newest_deposits [] = []
newest_deposits (d ∷ ds) = insert_by_created d (newest_deposits ds)

-- timestamp DESC, epoch_id DESC, bet_id DESC.
abbrev pub is_recent : ReceiptRow → ReceiptRow → Bool
is_recent r q =
    if r.timestamp == q.timestamp
    then (if r.epoch_id == q.epoch_id then leb q.bet_id r.bet_id else ltb q.epoch_id r.epoch_id)
    else ltb q.timestamp r.timestamp

abbrev pub insert_recent : ReceiptRow → List ReceiptRow → List ReceiptRow
insert_recent r [] = r ∷ []
insert_recent r (x ∷ xs) =
    let later = insert_recent r xs in if is_recent r x then r ∷ x ∷ xs else x ∷ later

unfoldable pub newest_receipts : List ReceiptRow → List ReceiptRow
newest_receipts [] = []
newest_receipts (r ∷ rs) = insert_recent r (newest_receipts rs)

pub record DepositJson : Type 0 where
  pub tx_hash : String
  pub from_wallet : String
  pub amount_wei : ℕ
  pub created_at : ℕ

pub record RecentJson : Type 0 where
  pub epoch_id : ℕ
  pub bet_id : ℕ
  pub client_seed : String
  pub win : Bool
  pub payout_bp : ℕ
  pub timestamp : ℕ

abbrev pub deposit_json : DepositRow → DepositJson
deposit_json d = record {
  tx_hash = d.tx_hash;
  from_wallet = d.from_wallet;
  amount_wei = d.amount_wei;
  created_at = d.created_at;
}

abbrev pub recent_json : ReceiptRow → RecentJson
recent_json r = record {
  epoch_id = r.epoch_id;
  bet_id = r.bet_id;
  client_seed = r.client_seed;
  win = r.win == 1;
  payout_bp = r.payout_bp;
  timestamp = r.timestamp;
}

pub record MyOperator : Type 0 where
  pub operator_id : ℕ
  pub name : String
  pub created_at : ℕ
  pub plays : ℕ
  pub wins : ℕ
  pub payout_bp_sum : ℕ
  pub epochs_used : ℕ
  pub funds : Funds
  pub deposits : List DepositJson
  pub recent : List RecentJson

pub record Me : Type 0 where
  pub wallet : String
  pub price_per_play_wei : ℕ
  pub operators : List MyOperator

unfoldable pub my_operator : Db → OperatorRow → MyOperator
unfolding newest_deposits newest_receipts
my_operator db o =
    let rows = filter (of_operator o.id none) db.receipts in
    record {
      operator_id = o.id;
      name = o.name;
      created_at = o.created_at;
      plays = length rows;
      wins = sum_win rows;
      payout_bp_sum = sum_payout rows;
      epochs_used = distinct_epochs rows;
      funds = operator_funds db o.id;
      deposits =
          map deposit_json (newest_deposits (filter (λ d. d.operator_id == o.id) db.deposits));
      recent = map recent_json (take 20 (newest_receipts rows));
    }

-- GET /billing/me.
unfoldable pub me : ℕ → Sessions → Option String → ℕ → Exec Engine Me
unfolding my_operator
me price sessions token now = do
  wallet ← lift (wallet_of sessions now token)
  rows ← gets (λ s. order_by_id (filter (λ o. has_owner wallet o.owner_wallet) s.db.operators))
  mine ← gets (λ s. map (my_operator s.db) rows)
  pure (record { wallet = wallet; price_per_play_wei = price; operators = mine })
