-- ===== src/Engine/Frame.antt =====
-- What a change of one table leaves sound in the others.
use foreseer.Base.{
  ℕ, ◌≤◌, ◌<◌, ◌≡◌, refl, String, true, false, none, some, List, [], ◌∷◌, arith, count, ◌==◌,
  nat_eq, string_eq, text_iff, ◌≢◌, any, find, sym, ◌∙◌,
}
use foreseer.Base.JsMap.{JsMap}
use foreseer.Sdk.{Sdk}
use foreseer.Db.{
  EpochRow, ReceiptRow, RuleRow, is_open, in_epoch, epoch_by_id, rule_by_hash, insert_rule,
}
use foreseer.Db.Epochs.{IsHistory, epoch_by_id-lt}
use foreseer.Engine.{Config, CacheEntry}
use foreseer.Engine.Sound.{seeds_of, entry_of, EpochsAreSealed, ReceiptsAreSound, CacheIsFresh}

seeds_of-above : (n i : ℕ) (es : List EpochRow) → IsHistory n es → n ≤ i → seeds_of i es ≡ none
seeds_of-above n i [] h k = refl
seeds_of-above n i (e ∷ es) h k = ground (arith, seeds_of-above e.epoch_id i es h.2)

-- A newer epoch hides none of the older ones.
pub seeds_of-cons :
    (e : EpochRow) (es : List EpochRow) (i : ℕ) (x : String × String)
    → IsHistory e.epoch_id es
    → seeds_of i es ≡ some x
    → seeds_of i (e ∷ es) ≡ some x
seeds_of-cons e es i x h k = ground (arith, seeds_of-above e.epoch_id i es h)

pub epoch_by_id-cons :
    (e : EpochRow) (es : List EpochRow) (i : ℕ) (f : EpochRow)
    → IsHistory e.epoch_id es
    → epoch_by_id i es ≡ some f
    → epoch_by_id i (e ∷ es) ≡ some f
unfolding epoch_by_id
epoch_by_id-cons e es i f h k = ground (arith, epoch_by_id-lt e.epoch_id i es f h)

find-any :
    (row : RuleRow) (rules : List RuleRow) (hash : String) (found : RuleRow)
    → find (λ r. r.rule_hash == hash) rules ≡ some found
    → row.rule_hash ≡ hash
    → any (λ r. r.rule_hash == row.rule_hash) rules ≡ true
find-any row [] hash found h q = ground arith
find-any row (r ∷ rules) hash found h q = ground (
  arith,
  find-any row rules hash found,
  text_iff r.rule_hash hash,
  text_iff r.rule_hash row.rule_hash,
)

-- ON CONFLICT DO NOTHING: a registered rule stays what it was.
pub rule_by_hash-insert :
    (row : RuleRow) (rules : List RuleRow) (hash : String) (found : RuleRow)
    → rule_by_hash hash rules ≡ some found
    → rule_by_hash hash (insert_rule row rules) ≡ some found
unfolding rule_by_hash insert_rule
rule_by_hash-insert row rules hash found h =
    ground (arith, text_iff row.rule_hash hash, find-any row rules hash found h)

-- A closed epoch below an open one is older.
pub closed-lt-open :
    (e : EpochRow) (es : List EpochRow) (i : ℕ) (f : EpochRow)
    → IsHistory e.epoch_id es
    → is_open e ≡ true
    → is_open f ≡ false
    → epoch_by_id i (e ∷ es) ≡ some f
    → f.epoch_id < e.epoch_id
unfolding epoch_by_id
closed-lt-open e es i f h o c k = ground (arith, epoch_by_id-lt e.epoch_id i es f h)

module _ (sdk : Sdk) (config : Config) where
  pub ReceiptsAreSound-epochs :
      (epochs epochs' : List EpochRow) (rules : List RuleRow) (rs : List ReceiptRow)
      → ((i : ℕ) (x : String × String) → seeds_of i epochs ≡ some x → seeds_of i epochs' ≡ some x)
      → ReceiptsAreSound sdk config epochs rules rs
      → ReceiptsAreSound sdk config epochs' rules rs
  ReceiptsAreSound-epochs epochs epochs' rules [] keep h = tt
  ReceiptsAreSound-epochs epochs epochs' rules (r ∷ rs) keep h =
      let sound = h.0 in
      (
        record {
          commit = sound.commit;
          seed = sound.seed;
          rule = sound.rule;
          seeds = keep r.epoch_id (sound.commit, sound.seed) sound.seeds;
          registered = sound.registered;
          derived = sound.derived;
          signed = sound.signed;
        },
        ReceiptsAreSound-epochs epochs epochs' rules rs keep h.1,
      )

  pub CacheIsFresh-epochs :
      (epochs epochs' : List EpochRow) (rs : List ReceiptRow) (m : JsMap ℕ CacheEntry)
      → ((i : ℕ) (e : EpochRow)
          → is_open e ≡ false
          → epoch_by_id i epochs ≡ some e
          → epoch_by_id i epochs' ≡ some e)
      → CacheIsFresh sdk config epochs rs m
      → CacheIsFresh sdk config epochs' rs m
  CacheIsFresh-epochs epochs epochs' rs [] keep h = tt
  CacheIsFresh-epochs epochs epochs' rs ((i, c) ∷ m) keep h =
      let entry = h.0 in
      (
        record {
          epoch = entry.epoch;
          found = keep i entry.epoch entry.closed entry.found;
          closed = entry.closed;
          fresh = entry.fresh;
        },
        CacheIsFresh-epochs epochs epochs' rs m keep h.1,
      )

  -- A receipt of another epoch changes nothing of this one's tree.
  pub entry_of-other :
      (r : ReceiptRow) (rs : List ReceiptRow) (e : EpochRow)
      → r.epoch_id ≢ e.epoch_id
      → (entry_of sdk config (r ∷ rs) e ≡ entry_of sdk config rs e)
        × (count (in_epoch e.epoch_id) (r ∷ rs) ≡ count (in_epoch e.epoch_id) rs)
  entry_of-other r rs e h = ground arith

  pub EpochsAreSealed-insert :
      (n : ℕ) (r : ReceiptRow) (rs : List ReceiptRow) (es : List EpochRow)
      → n ≤ r.epoch_id
      → IsHistory n es
      → EpochsAreSealed sdk config rs es
      → EpochsAreSealed sdk config (r ∷ rs) es
  EpochsAreSealed-insert n r rs [] k h s = tt
  EpochsAreSealed-insert n r rs (e ∷ es) k h s =
      ground (arith, EpochsAreSealed-insert e.epoch_id r rs es (omega arith) h.2 s.1)

  pub EpochsAreSealed-insert_open :
      (r : ReceiptRow) (rs : List ReceiptRow) (e : EpochRow) (es : List EpochRow)
      → IsHistory e.epoch_id es
      → is_open e ≡ true
      → r.epoch_id ≡ e.epoch_id
      → EpochsAreSealed sdk config rs (e ∷ es)
      → EpochsAreSealed sdk config (r ∷ rs) (e ∷ es)
  EpochsAreSealed-insert_open r rs e es h o q s =
      ground (arith, EpochsAreSealed-insert e.epoch_id r rs es (omega arith) h s.1)

  pub CacheIsFresh-insert :
      (r : ReceiptRow) (rs : List ReceiptRow) (e : EpochRow) (es : List EpochRow)
      (m : JsMap ℕ CacheEntry)
      → IsHistory e.epoch_id es
      → is_open e ≡ true
      → r.epoch_id ≡ e.epoch_id
      → CacheIsFresh sdk config (e ∷ es) rs m
      → CacheIsFresh sdk config (e ∷ es) (r ∷ rs) m
  CacheIsFresh-insert r rs e es [] h o q c = tt
  CacheIsFresh-insert r rs e es ((i, entry) ∷ m) h o q c =
      let old = c.0 in
      let older = closed-lt-open e es i old.epoch h o old.closed old.found in
      (
        record {
          epoch = old.epoch;
          found = old.found;
          closed = old.closed;
          fresh = old.fresh ∙ sym (entry_of-other r rs old.epoch (λ same. absurd (omega arith))).0;
        },
        CacheIsFresh-insert r rs e es m h o q c.1,
      )

  -- A new rule leaves the receipts sound.
  pub ReceiptsAreSound-rules :
      (epochs : List EpochRow) (row : RuleRow) (rules : List RuleRow) (rs : List ReceiptRow)
      → ReceiptsAreSound sdk config epochs rules rs
      → ReceiptsAreSound sdk config epochs (insert_rule row rules) rs
  ReceiptsAreSound-rules epochs row rules [] h = tt
  ReceiptsAreSound-rules epochs row rules (r ∷ rs) h =
      let sound = h.0 in
      (
        record {
          commit = sound.commit;
          seed = sound.seed;
          rule = sound.rule;
          seeds = sound.seeds;
          registered = rule_by_hash-insert row rules r.rule_hash sound.rule sound.registered;
          derived = sound.derived;
          signed = sound.signed;
        },
        ReceiptsAreSound-rules epochs row rules rs h.1,
      )
