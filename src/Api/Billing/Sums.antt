-- ===== src/Api/Billing/Sums.antt =====
-- The totals of the admin's billing page.
use foreseer.Base.{
  ℕ, ◌+◌, ◌≡◌, refl, ap, ◌∙◌, some, List, [], ◌∷◌, arith, map, count, length-filter, nat_eq,
}
use foreseer.Db.{Db, OperatorRow}
use foreseer.Funds.{Range, of_operator}
use foreseer.Funds.Sums.{spent, deposited, play_charges-spent, operator_funds-sums}
use foreseer.Api.Billing.{Totals, billing_row, add_rows, insert_by_id, order_by_id, billing_of}

-- The sum of a number of each operator.
abbrev pub sum_over : (OperatorRow → ℕ) → List OperatorRow → ℕ
sum_over f [] = 0
sum_over f (o ∷ os) = f o + sum_over f os

sum_over-insert_by_id :
    (f : OperatorRow → ℕ) (o : OperatorRow) (os : List OperatorRow)
    → sum_over f (insert_by_id o os) ≡ f o + sum_over f os
sum_over-insert_by_id f o [] = refl
sum_over-insert_by_id f o (x ∷ os) = ground (arith, sum_over-insert_by_id f o os)

sum_over-order_by_id :
    (f : OperatorRow → ℕ) (os : List OperatorRow) → sum_over f (order_by_id os) ≡ sum_over f os
unfolding order_by_id
sum_over-order_by_id f [] = refl
sum_over-order_by_id f (o ∷ os) =
    sum_over-insert_by_id f o (order_by_id os) ∙ ap (λ n. f o + n) (sum_over-order_by_id f os)

module _ (db : Db) (range : Range) where
  billing_row_lem :
      (o : OperatorRow)
      → ((billing_row db range o).plays ≡ count (of_operator o.id (some range)) db.receipts)
        × ((billing_row db range o).amount_due_wei ≡ spent o.id (some range) db.receipts)
        × ((billing_row db range o).deposited_wei ≡ deposited o.id db.deposits)
  unfolding billing_row
  billing_row_lem o =
      rw (play_charges-spent db o.id (some range), operator_funds-sums db o.id)
        (length-filter (of_operator o.id (some range)) db.receipts, refl, refl)

  add_rows-sum_over :
      (acc : Totals) (os : List OperatorRow)
      → add_rows acc (map (billing_row db range) os) ≡ record {
        plays = acc.plays + sum_over (λ o. count (of_operator o.id (some range)) db.receipts) os;
        amount_due_wei =
            acc.amount_due_wei + sum_over (λ o. spent o.id (some range) db.receipts) os;
        deposited_wei = acc.deposited_wei + sum_over (λ o. deposited o.id db.deposits) os;
      }
  unfolding add_rows
  add_rows-sum_over acc [] = ground arith
  add_rows-sum_over acc (o ∷ os) =
      let row = billing_row db range o in
      let head = billing_row_lem o in
      add_rows-sum_over
        (record {
          plays = acc.plays + row.plays;
          amount_due_wei = acc.amount_due_wei + row.amount_due_wei;
          deposited_wei = acc.deposited_wei + row.deposited_wei;
        })
        os
      ∙ ground (arith, head)

  -- The totals of the billing page add up, over all operators, their plays and their charges in
  -- the range, and their deposits of all time.
  pub billing_of-totals :
      (price : ℕ)
      → (billing_of db range price).totals ≡ record {
        plays = sum_over (λ o. count (of_operator o.id (some range)) db.receipts) db.operators;
        amount_due_wei = sum_over (λ o. spent o.id (some range) db.receipts) db.operators;
        deposited_wei = sum_over (λ o. deposited o.id db.deposits) db.operators;
      }
  billing_of-totals price =
      add_rows-sum_over (record { plays = 0; amount_due_wei = 0; deposited_wei = 0 })
        (order_by_id db.operators)
      ∙ ground (
        arith,
        sum_over-order_by_id (λ o. count (of_operator o.id (some range)) db.receipts) db.operators,
        sum_over-order_by_id (λ o. spent o.id (some range) db.receipts) db.operators,
        sum_over-order_by_id (λ o. deposited o.id db.deposits) db.operators,
      )
