-- ===== src/Engine/Cache.antt =====
-- The cache of `cachedTree`: a hit is what a miss would compute, and there are at most eight entries.
use foreseer.Base.{
  ℕ, ◌+◌, ◌≤◌, ◌≡◌, refl, ◌∙◌, ap, false, none, some, List, [], ◌∷◌, arith, inl, inr, Option-cases,
  nat_eq, if◌then◌else◌, length, ltb,
}
use foreseer.Base.Exec.{ok}
use foreseer.Base.JsMap.{
  JsMap, get, set, delete, delete_first, length-delete-lt, length-set-le, length-delete_first-le,
}
use foreseer.Sdk.{Sdk}
use foreseer.Db.{EpochRow, ReceiptRow, is_open, epoch_by_id}
use foreseer.Engine.{Engine, Config, CacheEntry, cached_tree, receipt_rows}
use foreseer.Engine.Sound.{entry_of, IsSound, EntryIsFresh, CacheIsFresh}

module _ (sdk : Sdk) (config : Config) (epochs : List EpochRow) (rs : List ReceiptRow) where
  get-EntryIsFresh :
      (m : JsMap ℕ CacheEntry) (i : ℕ) (c : CacheEntry)
      → CacheIsFresh sdk config epochs rs m
      → get m i ≡ some c
      → EntryIsFresh sdk config epochs rs i c
  unfolding get
  get-EntryIsFresh [] i c h k = absurd (ground arith)
  get-EntryIsFresh ((j, d) ∷ m) i c h k = ground (arith, get-EntryIsFresh m i c h.1)

  delete-CacheIsFresh :
      (m : JsMap ℕ CacheEntry) (i : ℕ)
      → CacheIsFresh sdk config epochs rs m
      → CacheIsFresh sdk config epochs rs (delete m i)
  unfolding delete
  delete-CacheIsFresh [] i h = tt
  delete-CacheIsFresh ((j, d) ∷ m) i h = ground (arith, delete-CacheIsFresh m i h.1)

  set-CacheIsFresh :
      (m : JsMap ℕ CacheEntry) (i : ℕ) (c : CacheEntry)
      → EntryIsFresh sdk config epochs rs i c
      → CacheIsFresh sdk config epochs rs m
      → CacheIsFresh sdk config epochs rs (set m i c)
  unfolding set
  set-CacheIsFresh [] i c e h = (e, tt)
  set-CacheIsFresh ((j, d) ∷ m) i c e h = ground (arith, set-CacheIsFresh m i c e h.1)

module _ (sdk : Sdk) (config : Config) where
  with_cache-IsSound :
      (s : Engine) (m : JsMap ℕ CacheEntry) (hits : ℕ)
      → CacheIsFresh sdk config s.db.epochs s.db.receipts m
      → length m ≤ 8
      → IsSound sdk config s
      → IsSound sdk config (record s { merkle_cache = m; merkle_cache_hits = hits })
  with_cache-IsSound s m hits c b v = record {
    ordered = v.ordered;
    numbered = v.numbered;
    committed = v.committed;
    hashed = v.hashed;
    sealed = v.sealed;
    receipts = v.receipts;
    cache = c;
    bounded = b;
  }

  abbrev after_hit : Engine → ℕ → CacheEntry → Engine
  after_hit s i hit = record s {
    merkle_cache_hits = s.merkle_cache_hits + 1;
    merkle_cache = set (delete s.merkle_cache i) i hit;
  }

  abbrev trimmed : JsMap ℕ CacheEntry → JsMap ℕ CacheEntry
  trimmed m = if ltb 8 (length m) then delete_first m else m

  abbrev after_miss : Engine → ℕ → CacheEntry → Engine
  after_miss s i entry = record s { merkle_cache = trimmed (set s.merkle_cache i entry) }

  cached_tree-hit :
      (s : Engine) (e : EpochRow) (hit : CacheEntry)
      → get s.merkle_cache e.epoch_id ≡ some hit
      → cached_tree sdk config e s ≡ (ok hit, after_hit s e.epoch_id hit)
  unfolding cached_tree
  cached_tree-hit s e hit h = ground arith

  cached_tree-miss :
      (s : Engine) (e : EpochRow)
      → get s.merkle_cache e.epoch_id ≡ none
      → cached_tree sdk config e s ≡ (
        ok (entry_of sdk config s.db.receipts e),
        after_miss s e.epoch_id (entry_of sdk config s.db.receipts e),
      )
  unfolding cached_tree receipt_rows
  cached_tree-miss s e h = rw (h, cached_tree)

  trimmed-CacheIsFresh :
      (epochs : List EpochRow) (rs : List ReceiptRow) (m : JsMap ℕ CacheEntry)
      → CacheIsFresh sdk config epochs rs m
      → CacheIsFresh sdk config epochs rs (trimmed m)
  unfolding delete_first
  trimmed-CacheIsFresh epochs rs [] h = tt
  trimmed-CacheIsFresh epochs rs ((i, c) ∷ m) h =
      ground (arith, delete-CacheIsFresh sdk config epochs rs ((i, c) ∷ m) i h)

  length-trimmed : (m : JsMap ℕ CacheEntry) → length m ≤ 9 → length (trimmed m) ≤ 8
  length-trimmed m h = ground (arith, length-delete_first-le m 8 h)

  -- The tree that `proofFor` uses is the one that the table gives, whether it was cached or not,
  -- and the cache stays sound and within eight entries.
  pub cached_tree_lem :
      (s : Engine) (e : EpochRow)
      → epoch_by_id e.epoch_id s.db.epochs ≡ some e
      → is_open e ≡ false
      → IsSound sdk config s
      → (s' : Engine) × (cached_tree sdk config e s
          ≡ (ok (entry_of sdk config s.db.receipts e), s'))
        × (s'.db ≡ s.db)
        × IsSound sdk config s'
  cached_tree_lem s e f c v = elim (Option-cases (get s.merkle_cache e.epoch_id)) [
    | inl miss ↦
        let entry = entry_of sdk config s.db.receipts e in
        let row : EntryIsFresh sdk config s.db.epochs s.db.receipts e.epoch_id entry = record {
          epoch = e;
          found = f;
          closed = c;
          fresh = refl;
        } in
        (
          after_miss s e.epoch_id entry,
          cached_tree-miss s e miss,
          refl,
          with_cache-IsSound s _ s.merkle_cache_hits
              (trimmed-CacheIsFresh s.db.epochs s.db.receipts (set s.merkle_cache e.epoch_id entry)
                (set-CacheIsFresh sdk config s.db.epochs s.db.receipts s.merkle_cache e.epoch_id
                  entry row v.cache))
              (length-trimmed (set s.merkle_cache e.epoch_id entry)
                (omega (arith, length-set-le s.merkle_cache e.epoch_id entry)))
              v,
        )
    | inr (hit, q) ↦
        let old =
          get-EntryIsFresh sdk config s.db.epochs s.db.receipts s.merkle_cache e.epoch_id hit
            v.cache q in
        let same : old.epoch ≡ e = ground arith in
        let fresh : hit ≡ entry_of sdk config s.db.receipts e =
          old.fresh ∙ ap (entry_of sdk config s.db.receipts) same in
        (
          after_hit s e.epoch_id hit,
          cached_tree-hit s e hit q ∙ ap (λ x. (ok x, after_hit s e.epoch_id hit)) fresh,
          refl,
          with_cache-IsSound s (set (delete s.merkle_cache e.epoch_id) e.epoch_id hit)
              (s.merkle_cache_hits + 1)
              (set-CacheIsFresh sdk config s.db.epochs s.db.receipts
                (delete s.merkle_cache e.epoch_id) e.epoch_id hit old
                (delete-CacheIsFresh sdk config s.db.epochs s.db.receipts s.merkle_cache e.epoch_id
                  v.cache))
              (omega (
                arith,
                length-set-le (delete s.merkle_cache e.epoch_id) e.epoch_id hit,
                length-delete-lt s.merkle_cache e.epoch_id hit q,
              ))
              v,
        )
  ]
