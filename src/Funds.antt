-- ===== src/Funds.antt =====
-- server/src/controllers.ts: playCharges and operatorFunds, the accounts of an operator in wei.
pub mod Sums
use foreseer.Base.{
  ℕ, suc, ◌+◌, ◌*◌, Bool, true, ◌&&◌, Option, none, some, List, [], ◌∷◌, filter, leb, ◌==◌, nat_eq,
  if◌then◌else◌, map,
}
use foreseer.Base.Int.{ℤ, sub_ℕ}
use foreseer.Db.{Db, ReceiptRow, DepositRow}

pub record Charges : Type 0 where
  pub plays : ℕ
  pub wei : ℕ

pub record Funds : Type 0 where
  pub plays : ℕ
  pub deposited_wei : ℕ
  pub spent_wei : ℕ
  pub balance_wei : ℤ

-- The range of times of a billing request; `none` is the whole time.
pub record Range : Type 0 where
  pub from : ℕ
  pub to : ℕ

abbrev pub in_range : Option Range → ReceiptRow → Bool
in_range none r = true
in_range (some t) r = leb t.from r.timestamp && leb r.timestamp t.to

-- A group of GROUP BY price_wei: the price, and COUNT(*).
pub record PriceGroup : Type 0 where
  pub price : ℕ
  pub count : ℕ

abbrev pub add_to_groups : ℕ → List PriceGroup → List PriceGroup
add_to_groups price [] = record { price = price; count = 1 } ∷ []
add_to_groups price (g ∷ gs) =
    let rest = add_to_groups price gs in
    if g.price == price then record g { count = suc g.count } ∷ gs else g ∷ rest

unfoldable pub group_by_price : List ReceiptRow → List PriceGroup
group_by_price [] = []
group_by_price (r ∷ rs) = add_to_groups r.price_wei (group_by_price rs)

-- rows.reduce(...), from `acc`.
unfoldable pub add_groups : Charges → List PriceGroup → Charges
add_groups acc [] = acc
add_groups acc (g ∷ gs) =
    add_groups (record { plays = acc.plays + g.count; wei = acc.wei + g.price * g.count }) gs

abbrev pub of_operator : ℕ → Option Range → ReceiptRow → Bool
of_operator id range r = r.operator_id == id && in_range range r

unfoldable pub play_charges : Db → ℕ → Option Range → Charges
unfolding group_by_price add_groups
play_charges db id range =
    add_groups (record { plays = 0; wei = 0 })
      (group_by_price (filter (of_operator id range) db.receipts))

unfoldable pub sum_deposits : ℕ → List DepositRow → ℕ
sum_deposits acc [] = acc
sum_deposits acc (d ∷ ds) = sum_deposits (acc + d.amount_wei) ds

unfoldable pub operator_funds : Db → ℕ → Funds
unfolding sum_deposits
operator_funds db id =
    let charges = play_charges db id none in
    let deposited = sum_deposits 0 (filter (λ d. d.operator_id == id) db.deposits) in
    record {
      plays = charges.plays;
      deposited_wei = deposited;
      spent_wei = charges.wei;
      balance_wei = sub_ℕ deposited charges.wei;
    }
