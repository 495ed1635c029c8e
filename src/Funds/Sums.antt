-- ===== src/Funds/Sums.antt =====
-- The accounts as plain sums over the tables: a play is charged at its own price, once.
use foreseer.Base.{
  ℕ, suc, ◌+◌, ◌*◌, ◌≡◌, refl, Option, none, List, [], ◌∷◌, filter, count, ◌==◌, nat_eq,
  if◌then◌else◌, arith,
}
use foreseer.Db.{Db, ReceiptRow, DepositRow}
use foreseer.Base.Int.{sub_ℕ}
use foreseer.Funds.{
  Charges, Range, PriceGroup, of_operator, add_to_groups, group_by_price, add_groups, play_charges,
  sum_deposits, operator_funds,
}

-- The prices of the plays of an operator, added up.
abbrev pub spent : ℕ → Option Range → List ReceiptRow → ℕ
spent id range [] = 0
spent id range (r ∷ rs) =
    let rest = spent id range rs in if of_operator id range r then r.price_wei + rest else rest

abbrev pub deposited : ℕ → List DepositRow → ℕ
deposited id [] = 0
deposited id (d ∷ ds) =
    let rest = deposited id ds in if d.operator_id == id then d.amount_wei + rest else rest

abbrev total_plays : List PriceGroup → ℕ
total_plays [] = 0
total_plays (g ∷ gs) = g.count + total_plays gs

abbrev total_wei : List PriceGroup → ℕ
total_wei [] = 0
total_wei (g ∷ gs) = g.price * g.count + total_wei gs

add_groups-total :
    (acc : Charges) (gs : List PriceGroup)
    → add_groups acc gs
      ≡ record { plays = acc.plays + total_plays gs; wei = acc.wei + total_wei gs }
unfolding add_groups
add_groups-total acc [] = ground arith
add_groups-total acc (g ∷ gs) = ground (
  arith,
  add_groups-total (record { plays = acc.plays + g.count; wei = acc.wei + g.price * g.count }) gs,
)

total_wei-add_to_groups :
    (price : ℕ) (gs : List PriceGroup) → total_wei (add_to_groups price gs) ≡ price + total_wei gs
total_wei-add_to_groups price [] = omega arith
total_wei-add_to_groups price (g ∷ gs) = ground (arith, total_wei-add_to_groups price gs)

total_plays-add_to_groups :
    (price : ℕ) (gs : List PriceGroup) → total_plays (add_to_groups price gs) ≡ suc (total_plays gs)
total_plays-add_to_groups price [] = omega arith
total_plays-add_to_groups price (g ∷ gs) = ground (arith, total_plays-add_to_groups price gs)

group_by_price-total :
    (id : ℕ) (range : Option Range) (rs : List ReceiptRow)
    → (total_plays (group_by_price (filter (of_operator id range) rs))
        ≡ count (of_operator id range) rs)
      × (total_wei (group_by_price (filter (of_operator id range) rs)) ≡ spent id range rs)
unfolding group_by_price
group_by_price-total id range [] = (refl, refl)
group_by_price-total id range (r ∷ rs) =
    let rest = group_by_price (filter (of_operator id range) rs) in
    ground (
      arith,
      group_by_price-total id range rs,
      total_wei-add_to_groups r.price_wei rest,
      total_plays-add_to_groups r.price_wei rest,
    )

-- The grouped query charges each play of the operator in the range at its recorded price.
pub play_charges-spent :
    (db : Db) (id : ℕ) (range : Option Range)
    → play_charges db id range ≡ record {
      plays = count (of_operator id range) db.receipts;
      wei = spent id range db.receipts;
    }
unfolding play_charges
play_charges-spent db id range =
    let groups = group_by_price (filter (of_operator id range) db.receipts) in
    ground (
      arith,
      group_by_price-total id range db.receipts,
      add_groups-total (record { plays = 0; wei = 0 }) groups,
    )

sum_deposits-deposited :
    (acc id : ℕ) (ds : List DepositRow)
    → sum_deposits acc (filter (λ d. d.operator_id == id) ds) ≡ acc + deposited id ds
unfolding sum_deposits
sum_deposits-deposited acc id [] = omega arith
sum_deposits-deposited acc id (d ∷ ds) =
    ground
      (arith, sum_deposits-deposited acc id ds, sum_deposits-deposited (acc + d.amount_wei) id ds)

-- The accounts of an operator are plain sums over the tables: the number of its plays, its
-- deposits, the prices of its plays, and the balance, which is what was deposited less what was
-- spent and may be negative.
pub operator_funds-sums :
    (db : Db) (id : ℕ)
    → operator_funds db id ≡ record {
      plays = count (of_operator id none) db.receipts;
      deposited_wei = deposited id db.deposits;
      spent_wei = spent id none db.receipts;
      balance_wei = sub_ℕ (deposited id db.deposits) (spent id none db.receipts);
    }
unfolding operator_funds
operator_funds-sums db id =
    let d = sum_deposits-deposited 0 id db.deposits in
    let sum : sum_deposits 0 (filter (λ x. x.operator_id == id) db.deposits)
        ≡ deposited id db.deposits =
      omega (arith, d) in
    rw (play_charges-spent db id none, sum)
