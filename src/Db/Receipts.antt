-- ===== src/Db/Receipts.antt =====
-- The table `receipts`: bet ids and nonces count up from 0.
use foreseer.Base.{
  ℕ, zero, suc, ◌+◌, ◌≤◌, ◌<◌, ◌≡◌, refl, String, false, ◌&&◌, some, List, [], ◌∷◌, ◌++◌, arith,
  filter, find, count, length, length-append, get_elem?, any, ◌==◌, nat_eq, string_eq, text_iff,
  if◌then◌else◌,
}
use foreseer.Db.Tables.{
  Db, ReceiptRow, insert_by_bet, order_by_bet, in_epoch, of_player, next_nonce, insert_receipt,
}

-- Newest first: a row's bet id counts the older rows of its epoch, its nonce those of its player.
abbrev pub ReceiptsAreNumbered : List ReceiptRow → Type 0
ReceiptsAreNumbered [] = Unit
ReceiptsAreNumbered (r ∷ rs) =
    (r.bet_id ≡ count (in_epoch r.epoch_id) rs)
    × (r.nonce ≡ count (of_player r.epoch_id r.client_seed) rs)
    × ReceiptsAreNumbered rs

-- The rows of an epoch, oldest first.
abbrev pub oldest_first : ℕ → List ReceiptRow → List ReceiptRow
oldest_first i [] = []
oldest_first i (r ∷ rs) =
    let rest = oldest_first i rs in if in_epoch i r then rest ++ (r ∷ []) else rest

abbrev BetsBelow : ℕ → List ReceiptRow → Type 0
BetsBelow n [] = Unit
BetsBelow n (r ∷ rs) = (r.bet_id < n) × BetsBelow n rs

BetsBelow-append :
    (n : ℕ) (xs : List ReceiptRow) (r : ReceiptRow)
    → BetsBelow n xs
    → r.bet_id ≤ n
    → BetsBelow (suc n) (xs ++ r ∷ [])
BetsBelow-append n [] r h k = omega arith
BetsBelow-append n (x ∷ xs) r h k = (omega arith, BetsBelow-append n xs r h.1 k)

insert_by_bet-last :
    (r : ReceiptRow) (xs : List ReceiptRow)
    → BetsBelow r.bet_id xs
    → insert_by_bet r xs ≡ xs ++ r ∷ []
insert_by_bet-last r [] h = refl
insert_by_bet-last r (x ∷ xs) h = ground (arith, insert_by_bet-last r xs h.1)

oldest_first-BetsBelow :
    (i : ℕ) (rs : List ReceiptRow)
    → ReceiptsAreNumbered rs
    → BetsBelow (count (in_epoch i) rs) (oldest_first i rs)
oldest_first-BetsBelow i [] h = tt
oldest_first-BetsBelow i (r ∷ rs) h =
    let ih = oldest_first-BetsBelow i rs h.2 in
    ground (arith, BetsBelow-append (count (in_epoch i) rs) (oldest_first i rs) r ih)

-- ORDER BY bet_id gives the rows in the order of their insertion.
pub order_by_bet-oldest_first :
    (i : ℕ) (rs : List ReceiptRow)
    → ReceiptsAreNumbered rs
    → order_by_bet (filter (in_epoch i) rs) ≡ oldest_first i rs
unfolding order_by_bet
order_by_bet-oldest_first i [] h = refl
order_by_bet-oldest_first i (r ∷ rs) h = ground (
  arith,
  order_by_bet-oldest_first i rs h.2,
  oldest_first-BetsBelow i rs h.2,
  insert_by_bet-last r (oldest_first i rs),
)

pub length-oldest_first :
    (i : ℕ) (rs : List ReceiptRow) → length (oldest_first i rs) ≡ count (in_epoch i) rs
length-oldest_first i [] = refl
length-oldest_first i (r ∷ rs) =
    ground (arith, length-oldest_first i rs, length-append (oldest_first i rs) (r ∷ []))

-- MAX(nonce) + 1 is the number of the player's bets in the epoch.
pub next_nonce-count :
    (i : ℕ) (client_seed : String) (rs : List ReceiptRow)
    → ReceiptsAreNumbered rs
    → next_nonce i client_seed rs ≡ count (of_player i client_seed) rs
unfolding next_nonce
next_nonce-count i client_seed [] h = refl
next_nonce-count i client_seed (r ∷ rs) h =
    ground (arith, next_nonce-count i client_seed rs h.2, text_iff r.client_seed client_seed)

bet_is_free :
    (i b : ℕ) (rs : List ReceiptRow)
    → ReceiptsAreNumbered rs
    → count (in_epoch i) rs ≤ b
    → any (λ q. q.epoch_id == i && q.bet_id == b) rs ≡ false
bet_is_free i b [] h k = refl
bet_is_free i b (r ∷ rs) h k = ground (arith, bet_is_free i b rs h.2)

-- A row numbered by COUNT(*) never meets a taken key.
pub insert_receipt-numbered :
    (row : ReceiptRow) (db : Db)
    → ReceiptsAreNumbered db.receipts
    → row.bet_id ≡ count (in_epoch row.epoch_id) db.receipts
    → insert_receipt row db ≡ some (record db { receipts = row ∷ db.receipts })
unfolding insert_receipt
insert_receipt-numbered row db h k =
    ground (arith, bet_is_free row.epoch_id row.bet_id db.receipts h)

-- Rows of the epoch `i` with the bet ids n, n + 1 and so on.
abbrev pub AreConsecutive : ℕ → ℕ → List ReceiptRow → Type 0
AreConsecutive i n [] = Unit
AreConsecutive i n (r ∷ rs) = (r.epoch_id ≡ i) × (r.bet_id ≡ n) × AreConsecutive i (suc n) rs

AreConsecutive-append :
    (i n : ℕ) (xs : List ReceiptRow) (r : ReceiptRow)
    → AreConsecutive i n xs
    → r.epoch_id ≡ i
    → r.bet_id ≡ n + length xs
    → AreConsecutive i n (xs ++ r ∷ [])
AreConsecutive-append i n [] r h e k = (e, omega arith, tt)
AreConsecutive-append i n (x ∷ xs) r h e k =
    (h.0, h.1, AreConsecutive-append i (suc n) xs r h.2 e (omega arith))

-- The rows of an epoch, oldest first, have the bet ids 0, 1, 2 and so on.
pub oldest_first-AreConsecutive :
    (i : ℕ) (rs : List ReceiptRow) → ReceiptsAreNumbered rs → AreConsecutive i 0 (oldest_first i rs)
oldest_first-AreConsecutive i [] h = tt
oldest_first-AreConsecutive i (r ∷ rs) h =
    let ih = oldest_first-AreConsecutive i rs h.2 in
    ground (arith, length-oldest_first i rs, AreConsecutive-append i 0 (oldest_first i rs) r ih)

-- So the row with a given bet id stands at that place.
pub find-AreConsecutive :
    (i n k b : ℕ) (rs : List ReceiptRow)
    → AreConsecutive i n rs
    → b ≡ n + k
    → find (λ q. q.bet_id == b) rs ≡ get_elem? rs k
find-AreConsecutive i n k b [] h e = refl
find-AreConsecutive i n zero b (r ∷ rs) h e = ground arith
find-AreConsecutive i n (suc k) b (r ∷ rs) h e =
    ground (arith, find-AreConsecutive i (suc n) k b rs h.2)

pub get_elem?-AreConsecutive :
    (i n k : ℕ) (rs : List ReceiptRow) (r : ReceiptRow)
    → AreConsecutive i n rs
    → get_elem? rs k ≡ some r
    → (r.epoch_id ≡ i) × (r.bet_id ≡ n + k)
get_elem?-AreConsecutive i n k [] r h e = ground arith
get_elem?-AreConsecutive i n zero (q ∷ rs) r h e = ground arith
get_elem?-AreConsecutive i n (suc k) (q ∷ rs) r h e =
    ground (arith, get_elem?-AreConsecutive i (suc n) k rs r h.2 e)
