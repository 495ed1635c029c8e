-- ===== src/Engine/Sound.antt =====
-- The invariant of the class Engine over its tables and its cache of Merkle trees.
use foreseer.Base.{
  ℕ, ◌≤◌, ◌≡◌, String, false, Option, none, some, List, [], ◌∷◌, filter, count, length, ◌==◌,
  nat_eq, if◌then◌else◌,
}
use foreseer.Base.JsMap.{JsMap}
use foreseer.Sdk.{Bytes, Sdk}
use foreseer.Db.{
  EpochRow, ReceiptRow, RuleRow, is_open, order_by_bet, in_epoch, epoch_by_id, rule_by_hash,
}
use foreseer.Db.Epochs.{EpochsAreOrdered}
use foreseer.Db.Receipts.{ReceiptsAreNumbered}
use foreseer.Engine.{Engine, Config, CacheEntry, row_to_receipt, digests_of}

-- The commitment and the seed of an epoch, which no statement changes.
abbrev pub seeds_of : ℕ → List EpochRow → Option (String × String)
seeds_of i [] = none
seeds_of i (e ∷ es) =
    let rest = seeds_of i es in
    if e.epoch_id == i then some (e.seed_commit, e.server_seed) else rest

module _ (sdk : Sdk) where
  -- The commitment was made from the seed that is kept.
  pub record IsCommitted (e : EpochRow) : Type 0 where
    pub seed : Bytes
    pub commit : e.seed_commit ≡ sdk.seed_commit seed
    pub hex : e.server_seed ≡ sdk.to_hex seed

  abbrev pub EpochsAreCommitted : List EpochRow → Type 0
  EpochsAreCommitted [] = Unit
  EpochsAreCommitted (e ∷ es) = IsCommitted e × EpochsAreCommitted es

  -- A rule is stored under its own hash.
  abbrev pub RulesAreHashed : List RuleRow → Type 0
  RulesAreHashed [] = Unit
  RulesAreHashed (r ∷ rs) = (sdk.rule_hash r.rule_json ≡ r.rule_hash) × RulesAreHashed rs

module _ (sdk : Sdk) (config : Config) where
  -- The tree and the digests of an epoch, computed from the table.
  abbrev pub entry_of : List ReceiptRow → EpochRow → CacheEntry
  entry_of rs e =
      let digests =
        digests_of sdk config (order_by_bet (filter (in_epoch e.epoch_id) rs)) e.seed_commit in
      record { tree = record { leaves = digests }; digests = digests }

  -- A closed epoch is anchored by the root and the number of its receipts.
  abbrev pub SealedAt : List ReceiptRow → EpochRow → Option ℕ → Type 0
  SealedAt rs e none = Unit
  SealedAt rs e (some t) =
      (e.merkle_root ≡ some (sdk.to_hex (sdk.merkle_root (entry_of rs e).tree)))
      × (e.receipt_count ≡ some (count (in_epoch e.epoch_id) rs))

  abbrev pub EpochsAreSealed : List ReceiptRow → List EpochRow → Type 0
  EpochsAreSealed rs [] = Unit
  EpochsAreSealed rs (e ∷ es) = SealedAt rs e e.closed_at × EpochsAreSealed rs es

  -- A receipt was derived from its epoch's seed by a registered rule, and signed by the key.
  pub record ReceiptIsSound (epochs : List EpochRow) (rules : List RuleRow) (r : ReceiptRow)
      : Type 0 where
    pub commit : String
    pub seed : String
    pub rule : RuleRow
    pub seeds : seeds_of r.epoch_id epochs ≡ some (commit, seed)
    pub registered : rule_by_hash r.rule_hash rules ≡ some rule
    pub derived :
        sdk.resolve_outcome rule.rule_json (sdk.to_bytes seed) r.client_seed r.nonce
        ≡ record { draws = r.draws; win = r.win == 1; payout_bp = r.payout_bp }
    pub signed :
        r.signature
        ≡ (sdk.sign_receipt (row_to_receipt sdk r commit) config.domain config.key).signature

  abbrev pub ReceiptsAreSound : List EpochRow → List RuleRow → List ReceiptRow → Type 0
  ReceiptsAreSound epochs rules [] = Unit
  ReceiptsAreSound epochs rules (r ∷ rs) =
      ReceiptIsSound epochs rules r × ReceiptsAreSound epochs rules rs

  -- A cached tree is the tree of a closed epoch.
  pub record EntryIsFresh (epochs : List EpochRow) (rs : List ReceiptRow) (i : ℕ) (c : CacheEntry)
      : Type 0 where
    pub epoch : EpochRow
    pub found : epoch_by_id i epochs ≡ some epoch
    pub closed : is_open epoch ≡ false
    pub fresh : c ≡ entry_of rs epoch

  abbrev pub CacheIsFresh : List EpochRow → List ReceiptRow → JsMap ℕ CacheEntry → Type 0
  CacheIsFresh epochs rs [] = Unit
  CacheIsFresh epochs rs ((i, c) ∷ m) = EntryIsFresh epochs rs i c × CacheIsFresh epochs rs m

  pub record IsSound (s : Engine) : Type 0 where
    pub ordered : EpochsAreOrdered s.db.epochs
    pub numbered : ReceiptsAreNumbered s.db.receipts
    pub committed : EpochsAreCommitted sdk s.db.epochs
    pub hashed : RulesAreHashed sdk s.db.rules
    pub sealed : EpochsAreSealed s.db.receipts s.db.epochs
    pub receipts : ReceiptsAreSound s.db.epochs s.db.rules s.db.receipts
    pub cache : CacheIsFresh s.db.epochs s.db.receipts s.merkle_cache
    pub bounded : length s.merkle_cache ≤ 8
