-- ===== src/Engine/Stored.antt =====
-- `play` in an open epoch: the row that it stores, and what a refusal leaves.
use Prim.Native.String.{◌++◌}
use foreseer.Base.{
  ℕ, ◌≡◌, refl, sym, ◌∙◌, ap, Bool, true, false, some, List, ◌∷◌, arith, inl, inr, Bool-cases,
  count, ◌==◌, nat_eq, if◌then◌else◌, subst,
}
use foreseer.Base.Exec.{ok, err, api}
use foreseer.Base.Text.{decimal}
use foreseer.Sdk.{Sdk, SignedReceipt, Receipt}
use foreseer.Db.{EpochRow, ReceiptRow, RuleRow, is_open, in_epoch, rule_by_hash, next_nonce}
use foreseer.Db.Epochs.{IsHistory, EpochsAreOrdered}
use foreseer.Db.Receipts.{next_nonce-count, insert_receipt-numbered}
use foreseer.Engine.{
  Engine, Config, PlayInput, play_in, differs, new_receipt, new_receipt_row, row_to_receipt,
}
use foreseer.Engine.Sound.{seeds_of, IsSound, ReceiptIsSound, EpochsAreSealed, CacheIsFresh}
use foreseer.Engine.Frame.{EpochsAreSealed-insert_open, CacheIsFresh-insert}
use foreseer.Engine.Open.{HasOpen}

-- The winning flag survives its column.
win_column : (w : Bool) → ◌==◌ {K = ℕ} (if w then 1 else 0) 1 ≡ w
win_column true = refl
win_column false = refl

module _ (sdk : Sdk) (config : Config) (row : ReceiptRow) (s : Engine) where
  -- A sound row of the open epoch, numbered by the table, keeps everything sound.
  insert-IsSound :
      (e : EpochRow) (es : List EpochRow)
      → s.db.epochs ≡ e ∷ es
      → is_open e ≡ true
      → row.epoch_id ≡ e.epoch_id
      → row.bet_id ≡ count (in_epoch row.epoch_id) s.db.receipts
      → row.nonce ≡ next_nonce row.epoch_id row.client_seed s.db.receipts
      → ReceiptIsSound sdk config s.db.epochs s.db.rules row
      → IsSound sdk config s
      → IsSound sdk config (record s { db = record s.db { receipts = row ∷ s.db.receipts } })
  insert-IsSound e es q o i b n r v =
      let ordered : IsHistory e.epoch_id es = subst EpochsAreOrdered q v.ordered in
      let sealed = subst (EpochsAreSealed sdk config s.db.receipts) q v.sealed in
      let cache = subst (λ x. CacheIsFresh sdk config x s.db.receipts s.merkle_cache) q v.cache in
      record {
        ordered = v.ordered;
        numbered = (
          b,
          n ∙ next_nonce-count row.epoch_id row.client_seed s.db.receipts v.numbered,
          v.numbered,
        );
        committed = v.committed;
        hashed = v.hashed;
        sealed =
            subst (EpochsAreSealed sdk config (row ∷ s.db.receipts)) (sym q)
              (EpochsAreSealed-insert_open sdk config row s.db.receipts e es ordered o i sealed);
        receipts = (r, v.receipts);
        cache =
            subst (λ x. CacheIsFresh sdk config x (row ∷ s.db.receipts) s.merkle_cache) (sym q)
              (CacheIsFresh-insert sdk config row s.db.receipts e es s.merkle_cache ordered o i
                cache);
        bounded = v.bounded;
      }

module _ (sdk : Sdk) (config : Config) (input : PlayInput) (now : ℕ) where
  -- The receipt of a play is read back from its row.
  pub row_to_receipt-new :
      (epoch : EpochRow) (nonce bet_id : ℕ)
      → let receipt = new_receipt sdk config input now epoch nonce bet_id in
        let row =
          new_receipt_row sdk config input receipt
            (sdk.sign_receipt receipt config.domain config.key) in
        row_to_receipt sdk row epoch.seed_commit ≡ receipt
  row_to_receipt-new epoch nonce bet_id = ground arith

  abbrev pub receipt_at : EpochRow → Engine → Receipt
  receipt_at epoch s =
      new_receipt sdk config input now epoch
        (next_nonce epoch.epoch_id input.client_seed s.db.receipts)
        (count (in_epoch epoch.epoch_id) s.db.receipts)

  abbrev pub signed_at : EpochRow → Engine → SignedReceipt
  signed_at epoch s = sdk.sign_receipt (receipt_at epoch s) config.domain config.key

  abbrev pub row_at : EpochRow → Engine → ReceiptRow
  row_at epoch s = new_receipt_row sdk config input (receipt_at epoch s) (signed_at epoch s)

  abbrev pub with_row : EpochRow → Engine → Engine
  with_row epoch s = record s { db = record s.db { receipts = row_at epoch s ∷ s.db.receipts } }

  pub play_in-stored :
      (epoch : EpochRow) (s : Engine)
      → IsSound sdk config s
      → differs input.nonce (next_nonce epoch.epoch_id input.client_seed s.db.receipts) ≡ false
      → play_in sdk config input now epoch s ≡ (
        ok (record {
          signed = signed_at epoch s;
          epoch_id = epoch.epoch_id;
          bet_id = count (in_epoch epoch.epoch_id) s.db.receipts;
        }),
        with_row epoch s,
      )
  play_in-stored epoch s v d =
      ground (arith, insert_receipt-numbered (row_at epoch s) s.db v.numbered refl)

  pub play_in-refused :
      (epoch : EpochRow) (s : Engine)
      → let n = next_nonce epoch.epoch_id input.client_seed s.db.receipts in
        differs input.nonce n ≡ true
        → play_in sdk config input now epoch s
          ≡ (err (api 409 ("nonce must be " ++ decimal n ++ " for this clientSeed")), s)
  play_in-refused epoch s d = ground arith

  pub play_in-rules :
      (epoch : EpochRow) (s : Engine)
      → IsSound sdk config s
      → (play_in sdk config input now epoch s).1.db.rules ≡ s.db.rules
  play_in-rules e s v =
      elim (Bool-cases
        (differs input.nonce (next_nonce e.epoch_id input.client_seed s.db.receipts))) [
          | inl d ↦ rw (play_in-refused e s d) refl
          | inr d ↦ rw (play_in-stored e s v d) refl
        ]

  seeds_of-newest :
      (e : EpochRow) (es : List EpochRow)
      → seeds_of e.epoch_id (e ∷ es) ≡ some (e.seed_commit, e.server_seed)
  seeds_of-newest e es = ground arith

  -- The stored row is sound if the rule is the registered one.
  row_at-ReceiptIsSound :
      (e : EpochRow) (es : List EpochRow) (s : Engine) (rule : RuleRow)
      → rule_by_hash (sdk.rule_hash input.rule) s.db.rules ≡ some rule
      → rule.rule_json ≡ input.rule
      → ReceiptIsSound sdk config (e ∷ es) s.db.rules (row_at e s)
  row_at-ReceiptIsSound e es s rule registered same = record {
    commit = e.seed_commit;
    seed = e.server_seed;
    rule = rule;
    seeds = seeds_of-newest e es;
    registered = registered;
    derived = rw (same, win_column) refl;
    signed = sym (
        ap (λ r. (sdk.sign_receipt r config.domain config.key).signature)
          (row_to_receipt-new e _ _));
  }

  -- What `play` does in the open epoch of a sound engine, on both branches of its nonce check.
  pub play_in_cases :
      (e : EpochRow) (s : Engine) (rule : RuleRow)
      → rule_by_hash (sdk.rule_hash input.rule) s.db.rules ≡ some rule
      → rule.rule_json ≡ input.rule
      → HasOpen e s
      → IsSound sdk config s
      → IsSound sdk config (play_in sdk config input now e s).1
  play_in_cases e s rule registered same o v =
      elim (Bool-cases
        (differs input.nonce (next_nonce e.epoch_id input.client_seed s.db.receipts))) [
          | inl d ↦ rw (play_in-refused e s d) v
          | inr d ↦ rw (play_in-stored e s v d) (
              insert-IsSound sdk config (row_at e s) s e o.older o.newest o.is_open refl refl refl
                (subst (λ es. ReceiptIsSound sdk config es s.db.rules (row_at e s)) (sym o.newest)
                  (row_at-ReceiptIsSound e o.older s rule registered same))
                v)
        ]
