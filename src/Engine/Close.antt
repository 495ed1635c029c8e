-- ===== src/Engine/Close.antt =====
-- `closeOpen` and `tick`: the close seals the open epoch, and the tick replaces an epoch that is due.
use foreseer.Base.{
  ℕ, ◌≡◌, refl, ◌∙◌, ap, true, false, none, some, List, ◌∷◌, arith, ◌⊎◌, inl, inr, count, nat_eq,
  filter, subst, length,
}
use foreseer.Base.Exec.{ok, Result, continue, pure}
use foreseer.Sdk.{Sdk}
use foreseer.Db.{EpochRow, is_open, in_epoch, open_epoch, epoch_by_id, order_by_bet, set_closed}
use foreseer.Db.Epochs.{EpochsAreOrdered, set_closed-cons, open_epoch-cons}
use foreseer.Db.Receipts.{order_by_bet-oldest_first, length-oldest_first}
use foreseer.Engine.{Engine, Config, Closed, close_epoch, close_open, receipt_rows}
use foreseer.Engine.Sound.{
  seeds_of, entry_of, IsSound, ReceiptsAreSound, EpochsAreSealed, EpochsAreCommitted, CacheIsFresh,
}
use foreseer.Engine.Frame.{ReceiptsAreSound-epochs, CacheIsFresh-epochs}
use foreseer.Engine.Open.{open_epoch-none}

module _ (sdk : Sdk) (config : Config) (now : ℕ) where
  abbrev pub close_of : EpochRow → Engine → Closed
  close_of e s =
      let entry = entry_of sdk config s.db.receipts e in
      let root = sdk.to_hex (sdk.merkle_root entry.tree) in
      record {
        epoch_id = e.epoch_id;
        merkle_root = root;
        receipt_count = count (in_epoch e.epoch_id) s.db.receipts;
        close_signature =
            sdk.sign_epoch_close
              (record {
                spec_version = sdk.spec_version;
                code_version = sdk.code_version;
                epoch_id = e.epoch_id;
                seed_commit = e.seed_commit;
                server_seed = e.server_seed;
                merkle_root = root;
                receipt_count = count (in_epoch e.epoch_id) s.db.receipts;
              })
              config.domain config.key;
      }

  abbrev pub closed_row : EpochRow → Engine → EpochRow
  closed_row e s = record e {
    closed_at = some now;
    merkle_root = some (close_of e s).merkle_root;
    receipt_count = some (close_of e s).receipt_count;
    close_signature = some (close_of e s).close_signature;
  }

  abbrev pub with_closed : EpochRow → List EpochRow → Engine → Engine
  with_closed e older s = record s { db = record s.db { epochs = closed_row e s ∷ older } }

  length-rows :
      (e : EpochRow) (s : Engine)
      → IsSound sdk config s
      → length (order_by_bet (filter (in_epoch e.epoch_id) s.db.receipts))
        ≡ count (in_epoch e.epoch_id) s.db.receipts
  length-rows e s v =
      ap length (order_by_bet-oldest_first e.epoch_id s.db.receipts v.numbered)
      ∙ length-oldest_first e.epoch_id s.db.receipts

  close_epoch_lem :
      (s : Engine) (e : EpochRow) (older : List EpochRow)
      → IsSound sdk config s
      → s.db.epochs ≡ e ∷ older
      → close_epoch sdk config now e s ≡ (ok (close_of e s), with_closed e older s)
  unfolding receipt_rows
  close_epoch_lem s e older v q = rw (length-rows e s v) (
      ap (λ es. (ok (close_of e s), record s { db = record s.db { epochs = es } }))
        (ap (set_closed e.epoch_id now _ _ _) q
          ∙ set_closed-cons e now _ _ _ older (subst EpochsAreOrdered q v.ordered)))

  pub close_open-closed :
      (s : Engine) (e : EpochRow) (older : List EpochRow)
      → IsSound sdk config s
      → s.db.epochs ≡ e ∷ older
      → open_epoch s.db.epochs ≡ some e
      → close_open sdk config now s ≡ (ok (some (close_of e s)), with_closed e older s)
  unfolding close_open
  close_open-closed s e older v q o =
      rw (o, close_open)
        (ap (λ (x : Result Closed × Engine). continue x.0 (λ closed. pure (some closed)) x.1)
          (close_epoch_lem s e older v q))

  seeds_of-closed :
      (e : EpochRow) (older : List EpochRow) (s : Engine) (i : ℕ)
      → seeds_of i (closed_row e s ∷ older) ≡ seeds_of i (e ∷ older)
  seeds_of-closed e older s i = refl

  epoch_by_id-closed :
      (e : EpochRow) (older : List EpochRow) (s : Engine) (i : ℕ) (f : EpochRow)
      → is_open e ≡ true
      → is_open f ≡ false
      → epoch_by_id i (e ∷ older) ≡ some f
      → epoch_by_id i (closed_row e s ∷ older) ≡ some f
  unfolding epoch_by_id
  epoch_by_id-closed e older s i f o c h = ground arith

  -- A close keeps the engine sound: what it writes is the root of the receipts of the epoch.
  pub with_closed-IsSound :
      (s : Engine) (e : EpochRow) (older : List EpochRow)
      → s.db.epochs ≡ e ∷ older
      → is_open e ≡ true
      → IsSound sdk config s
      → IsSound sdk config (with_closed e older s)
  with_closed-IsSound s e older q o v =
      let committed = subst (EpochsAreCommitted sdk) q v.committed in
      let sealed = subst (EpochsAreSealed sdk config s.db.receipts) q v.sealed in
      let receipts =
        subst (λ x. ReceiptsAreSound sdk config x s.db.rules s.db.receipts) q v.receipts in
      let cache = subst (λ x. CacheIsFresh sdk config x s.db.receipts s.merkle_cache) q v.cache in
      let after = closed_row e s ∷ older in
      record {
        ordered = subst EpochsAreOrdered q v.ordered;
        numbered = v.numbered;
        committed = (
          record { seed = committed.0.seed; commit = committed.0.commit; hex = committed.0.hex },
          committed.1,
        );
        hashed = v.hashed;
        sealed = ((refl, refl), sealed.1);
        receipts =
            ReceiptsAreSound-epochs sdk config (e ∷ older) after s.db.rules s.db.receipts
              (λ i x h. h) receipts;
        cache =
            CacheIsFresh-epochs sdk config (e ∷ older) after s.db.receipts s.merkle_cache
              (λ i f c h. epoch_by_id-closed e older s i f o c h) cache;
        bounded = v.bounded;
      }

  close_open-none :
      (s : Engine) → open_epoch s.db.epochs ≡ none → close_open sdk config now s ≡ (ok none, s)
  unfolding close_open
  close_open-none s h = ground arith

  -- A close of a sound engine closes the open epoch, if there is one, and nothing else: the
  -- anchored root is that of the epoch's receipts in the order of their bet ids, the count their
  -- number.
  pub close_open_seals :
      (s : Engine)
      → IsSound sdk config s
      → ((open_epoch s.db.epochs ≡ none) × (close_open sdk config now s ≡ (ok none, s)))
        ⊎ ((e : EpochRow) × (older : List EpochRow) × (open_epoch s.db.epochs ≡ some e)
            × (s.db.epochs ≡ e ∷ older)
            × (close_open sdk config now s ≡ (ok (some (close_of e s)), with_closed e older s))
            × (open_epoch (with_closed e older s).db.epochs ≡ none))
  close_open_seals s v = elim (open_epoch-none s.db.epochs v.ordered) [
    | inl h ↦ inl (h, close_open-none s h)
    | inr (e, older, q, o, h) ↦ inr (
      e,
      older,
      h,
      q,
      close_open-closed s e older v q h,
      open_epoch-cons (closed_row e s) older (subst EpochsAreOrdered q v.ordered),
    )
  ]

  pub close_open-IsSound :
      (s : Engine) → IsSound sdk config s → IsSound sdk config (close_open sdk config now s).1
  close_open-IsSound s v = elim (open_epoch-none s.db.epochs v.ordered) [
    | inl h ↦ rw (close_open-none s h) v
    | inr (e, older, q, o, h) ↦
        rw (close_open-closed s e older v q h) (with_closed-IsSound s e older q o v)
  ]

  pub close_open-same :
      (s : Engine)
      → IsSound sdk config s
      → ((close_open sdk config now s).1.db.receipts ≡ s.db.receipts)
        × ((close_open sdk config now s).1.db.deposits ≡ s.db.deposits)
        × ((close_open sdk config now s).1.db.rules ≡ s.db.rules)
  close_open-same s v = elim (open_epoch-none s.db.epochs v.ordered) [
    | inl h ↦ rw (close_open-none s h) (refl, refl, refl)
    | inr (e, older, q, o, h) ↦ rw (close_open-closed s e older v q h) (refl, refl, refl)
  ]
