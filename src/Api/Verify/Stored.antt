-- ===== src/Api/Verify/Stored.antt =====
-- What a sound engine says of a receipt that is found in its table.
use foreseer.Base.{ℕ, ◌≡◌, some, List, [], ◌∷◌, arith, find, filter, ◌==◌, nat_eq}
use foreseer.Sdk.{Sdk}
use foreseer.Db.{EpochRow, ReceiptRow, RuleRow, epoch_by_id, order_by_bet, insert_by_bet, in_epoch}
use foreseer.Engine.{Config}
use foreseer.Engine.Sound.{
  seeds_of, IsCommitted, EpochsAreCommitted, ReceiptIsSound, ReceiptsAreSound,
}

pub seeds_of-found :
    (i : ℕ) (es : List EpochRow) (e : EpochRow)
    → epoch_by_id i es ≡ some e
    → seeds_of i es ≡ some (e.seed_commit, e.server_seed)
unfolding epoch_by_id
seeds_of-found i [] e h = ground arith
seeds_of-found i (f ∷ es) e h = ground (arith, seeds_of-found i es e)

module _ (sdk : Sdk) (config : Config) where
  pub EpochsAreCommitted-found :
      (i : ℕ) (es : List EpochRow) (e : EpochRow)
      → epoch_by_id i es ≡ some e
      → EpochsAreCommitted sdk es
      → IsCommitted sdk e
  unfolding epoch_by_id
  EpochsAreCommitted-found i [] e h c = absurd (ground arith)
  EpochsAreCommitted-found i (f ∷ es) e h c = ground (arith, EpochsAreCommitted-found i es e)

  module _ (epochs : List EpochRow) (rules : List RuleRow) where
    insert-Sound :
        (r : ReceiptRow) (xs : List ReceiptRow)
        → ReceiptIsSound sdk config epochs rules r
        → ReceiptsAreSound sdk config epochs rules xs
        → ReceiptsAreSound sdk config epochs rules (insert_by_bet r xs)
    insert-Sound r [] h v = (h, tt)
    insert-Sound r (x ∷ xs) h v = ground (arith, insert-Sound r xs h v.1)

    rows-Sound :
        (i : ℕ) (rs : List ReceiptRow)
        → ReceiptsAreSound sdk config epochs rules rs
        → ReceiptsAreSound sdk config epochs rules (order_by_bet (filter (in_epoch i) rs))
    unfolding order_by_bet
    rows-Sound i [] v = tt
    rows-Sound i (r ∷ rs) v =
        let ih = rows-Sound i rs v.1 in
        ground (arith, insert-Sound r (order_by_bet (filter (in_epoch i) rs)) v.0 ih)

    find-Sound :
        (b : ℕ) (xs : List ReceiptRow) (r : ReceiptRow)
        → ReceiptsAreSound sdk config epochs rules xs
        → find (λ q. q.bet_id == b) xs ≡ some r
        → ReceiptIsSound sdk config epochs rules r
    find-Sound b [] r v h = absurd (ground arith)
    find-Sound b (x ∷ xs) r v h = ground (arith, find-Sound b xs r v.1)

    pub stored-Sound :
        (i b : ℕ) (rs : List ReceiptRow) (r : ReceiptRow)
        → ReceiptsAreSound sdk config epochs rules rs
        → find (λ q. q.bet_id == b) (order_by_bet (filter (in_epoch i) rs)) ≡ some r
        → ReceiptIsSound sdk config epochs rules r
    stored-Sound i b rs r v h =
        find-Sound b (order_by_bet (filter (in_epoch i) rs)) r (rows-Sound i rs v) h
