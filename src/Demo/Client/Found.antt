-- ===== src/Demo/Client/Found.antt =====
-- What the clients read of an epoch that the server knows.
use foreseer.Base.{
  ℕ, Bool, Option, none, some, List, [], ◌∷◌, map, find, ◌≡◌, refl, arith, ◌≤◌, ◌<◌, zero, suc,
  take, get_elem?, ◌==◌, nat_eq, ap, ◌∙◌, sym, filter,
}
use foreseer.Base.Text.{decimal}
use foreseer.Base.Exec.{ok}
use foreseer.Json.{undefined, string}
use foreseer.Sdk.{Sdk}
use foreseer.Db.{EpochRow, ReceiptRow, epoch_by_id, order_by_bet, in_epoch}
use foreseer.Db.Receipts.{
  AreConsecutive, ReceiptsAreNumbered, oldest_first, order_by_bet-oldest_first,
  oldest_first-AreConsecutive, find-AreConsecutive,
}
use foreseer.Engine.{Engine, Config, receipt_page, receipt_rows, row_to_receipt}
use foreseer.Api.Params.{int_query}
use foreseer.Api.Params.Decimal.{int_param-decimal}
use foreseer.Api.Pages.{receipt_json, epoch_json, ReceiptsPage, page_of, by_id, receipts}
use foreseer.Demo.Client.{entry_in}

abbrev map_option : {A B : Type 0} → (A → B) → Option A → Option B
map_option f none = none
map_option f (some a) = some (f a)

find-map :
    {A B : Type 0} (p : B → Bool) (f : A → B) (xs : List A)
    → find p (map f xs) ≡ map_option f (find (λ x. p (f x)) xs)
find-map p f [] = refl
find-map p f (x ∷ xs) = ground (arith, find-map p f xs)

AreConsecutive-take :
    (i n k : ℕ) (rs : List ReceiptRow) → AreConsecutive i n rs → AreConsecutive i n (take k rs)
AreConsecutive-take i n zero rs h = tt
AreConsecutive-take i n (suc k) [] h = tt
AreConsecutive-take i n (suc k) (r ∷ rs) h = (h.0, h.1, AreConsecutive-take i (suc n) k rs h.2)

get_elem?-take :
    {A : Type 0} (xs : List A) (k b : ℕ) → b < k → get_elem? (take k xs) b ≡ get_elem? xs b
get_elem?-take xs zero b h = absurd (omega arith)
get_elem?-take [] (suc k) b h = refl
get_elem?-take (x ∷ xs) (suc k) zero h = refl
get_elem?-take (x ∷ xs) (suc k) (suc b) h = get_elem?-take xs k b (omega arith)

-- A bet of a low number stands on the first page.
find-first_page :
    (i k b : ℕ) (rs : List ReceiptRow)
    → ReceiptsAreNumbered rs
    → b < k
    → find (λ q. q.bet_id == b) (take k (order_by_bet (filter (in_epoch i) rs)))
      ≡ find (λ q. q.bet_id == b) (order_by_bet (filter (in_epoch i) rs))
find-first_page i k b rs h l =
    let old = oldest_first i rs in
    let c = oldest_first-AreConsecutive i rs h in
    rw (order_by_bet-oldest_first i rs h) (
      find-AreConsecutive i 0 b b (take k old) (AreConsecutive-take i 0 k old c) (omega arith)
      ∙ get_elem?-take old k b l
      ∙ sym (find-AreConsecutive i 0 b b old c (omega arith)))

module _ (sdk : Sdk) (config : Config) (s : Engine) (e : EpochRow) (i b : ℕ) where
  pub by_id-found :
      epoch_by_id i s.db.epochs ≡ some e
      → by_id sdk config (decimal i) s ≡ (ok (epoch_json sdk e), s)
  unfolding by_id
  by_id-found f = ground (arith, int_param-decimal i)

  abbrev pub first_page : ReceiptsPage
  first_page = page_of sdk config i e 1000 0 (receipt_page i none 1000 0 s.db)

  pub receipts-found :
      epoch_by_id i s.db.epochs ≡ some e
      → receipts sdk config (decimal i) undefined (string "1000") undefined s ≡ (ok first_page, s)
  unfolding receipts int_query
  receipts-found f =
      let size : int_query (string "1000") 100 1 1000 "limit must be 1..1000" ≡ ok 1000 = refl in
      ground (arith, int_param-decimal i, size)

  pub entry_in-found :
      (row : ReceiptRow)
      → ReceiptsAreNumbered s.db.receipts
      → find (λ q. q.bet_id == b) (receipt_rows i none s.db) ≡ some row
      → b < 1000
      → entry_in b first_page.receipts
        ≡ some (receipt_json (row_to_receipt sdk row e.seed_commit) row.signature)
  unfolding receipt_page receipt_rows
  entry_in-found row h r l =
      let found = find-first_page i 1000 b s.db.receipts h l ∙ r in
      let shown =
        λ (q : ReceiptRow). receipt_json (row_to_receipt sdk q e.seed_commit) q.signature in
      find-map (λ r. r.receipt.bet_id == b) shown (receipt_page i none 1000 0 s.db).0
      ∙ ap (map_option shown) found

get_elem?-take-none : {A : Type 0} (xs : List A) (k b : ℕ) → k ≤ b → get_elem? (take k xs) b ≡ none
get_elem?-take-none xs zero b h = refl
get_elem?-take-none [] (suc k) b h = refl
get_elem?-take-none (x ∷ xs) (suc k) zero h = absurd (omega arith)
get_elem?-take-none (x ∷ xs) (suc k) (suc b) h = get_elem?-take-none xs k b (omega arith)

-- A bet of a higher number stands on no page that the clients ask for.
pub entry_in-none :
    (sdk : Sdk) (config : Config) (s : Engine) (e : EpochRow) (i b : ℕ)
    → ReceiptsAreNumbered s.db.receipts
    → 1000 ≤ b
    → entry_in b (first_page sdk config s e i b).receipts ≡ none
unfolding receipt_page receipt_rows
entry_in-none sdk config s e i b h l =
    let rs = s.db.receipts in
    let old = oldest_first i rs in
    let c = oldest_first-AreConsecutive i rs h in
    let shown = λ (q : ReceiptRow). receipt_json (row_to_receipt sdk q e.seed_commit) q.signature in
    let gone : find (λ q. q.bet_id == b) (take 1000 (order_by_bet (filter (in_epoch i) rs)))
        ≡ none =
      rw (order_by_bet-oldest_first i rs h) (
        find-AreConsecutive i 0 b b (take 1000 old) (AreConsecutive-take i 0 1000 old c)
          (omega arith)
        ∙ get_elem?-take-none old 1000 b l) in
    find-map (λ r. r.receipt.bet_id == b) shown (receipt_page i none 1000 0 s.db).0
    ∙ ap (map_option shown) gone
