-- ===== src/Engine/Open.antt =====
-- `ensureEpoch` returns the open epoch, which it makes if there is none.
use foreseer.Base.{
  ℕ, ◌+◌, ◌≡◌, refl, true, none, some, List, [], ◌∷◌, arith, ◌⊎◌, inl, inr, Bool-cases,
}
use foreseer.Base.Exec.{ok}
use foreseer.Sdk.{Bytes, Sdk}
use foreseer.Db.{EpochRow, is_open, open_epoch, epoch_by_id, max_epoch_id}
use foreseer.Db.Epochs.{
  IsHistory, EpochsAreOrdered, open_epoch-cons, max_epoch_id-cons, insert_epoch-cons,
}
use foreseer.Engine.{Engine, Config, ensure_epoch, new_epoch, or_default}
use foreseer.Engine.Sound.{IsSound}
use foreseer.Engine.Frame.{
  seeds_of-cons, epoch_by_id-cons, ReceiptsAreSound-epochs, CacheIsFresh-epochs,
}

-- The newest epoch is `e`, and it is open.
pub record HasOpen (e : EpochRow) (s : Engine) : Type 0 where
  pub older : List EpochRow
  pub newest : s.db.epochs ≡ e ∷ older
  pub is_open : is_open e ≡ true

-- An id above the newest epoch's.
unfoldable pub next_id : List EpochRow → ℕ
next_id es = or_default (max_epoch_id es) 0 + 1

pub next_id-IsHistory :
    (es : List EpochRow) → EpochsAreOrdered es → open_epoch es ≡ none → IsHistory (next_id es) es
unfolding next_id max_epoch_id
next_id-IsHistory [] h k = tt
next_id-IsHistory (e ∷ es) h k = ground (arith, max_epoch_id-cons e es h, open_epoch-cons e es h)

pub open_epoch-none :
    (es : List EpochRow)
    → EpochsAreOrdered es
    → (open_epoch es ≡ none)
      ⊎ ((e : EpochRow) × (older : List EpochRow) × (es ≡ e ∷ older)
          × (is_open e ≡ true)
          × (open_epoch es ≡ some e))
unfolding open_epoch
open_epoch-none [] h = inl refl
open_epoch-none (e ∷ es) h = elim (Bool-cases (is_open e)) [
  | inl y ↦ inr (e, es, refl, y, ground (arith, open_epoch-cons e es h))
  | inr n ↦ inl (ground (arith, open_epoch-cons e es h))
]

module _ (sdk : Sdk) (now : ℕ) (seed : Bytes) where
  abbrev pub with_new : Engine → Engine
  with_new s = record s { db = record s.db { epochs = new_epoch sdk s.db now seed ∷ s.db.epochs } }

  ensure_epoch-found :
      (s : Engine) (e : EpochRow)
      → open_epoch s.db.epochs ≡ some e
      → ensure_epoch sdk now seed s ≡ (ok e, s)
  unfolding ensure_epoch
  ensure_epoch-found s e h = ground arith

  pub ensure_epoch-made :
      (s : Engine)
      → open_epoch s.db.epochs ≡ none
      → IsHistory (next_id s.db.epochs) s.db.epochs
      → ensure_epoch sdk now seed s ≡ (ok (new_epoch sdk s.db now seed), with_new s)
  unfolding ensure_epoch epoch_by_id next_id
  ensure_epoch-made s h k = ground (arith, insert_epoch-cons (new_epoch sdk s.db now seed) s.db k)

module _ (sdk : Sdk) (config : Config) (now : ℕ) (seed : Bytes) where
  pub with_new-IsSound :
      (s : Engine)
      → IsHistory (next_id s.db.epochs) s.db.epochs
      → IsSound sdk config s
      → IsSound sdk config (with_new sdk now seed s)
  unfolding next_id
  with_new-IsSound s h v =
      let row = new_epoch sdk s.db now seed in
      record {
        ordered = h;
        numbered = v.numbered;
        committed = (record { seed = seed; commit = refl; hex = refl }, v.committed);
        hashed = v.hashed;
        sealed = (tt, v.sealed);
        receipts =
            ReceiptsAreSound-epochs sdk config s.db.epochs (row ∷ s.db.epochs) s.db.rules
              s.db.receipts (λ i x k. seeds_of-cons row s.db.epochs i x h k) v.receipts;
        cache =
            CacheIsFresh-epochs sdk config s.db.epochs (row ∷ s.db.epochs) s.db.receipts
              s.merkle_cache (λ i e c k. epoch_by_id-cons row s.db.epochs i e h k) v.cache;
        bounded = v.bounded;
      }

  -- `ensureEpoch` never throws: it returns the open epoch, which is the newest, and keeps the tables
  -- and the cache sound.
  pub ensure_epoch-IsSound :
      (s : Engine)
      → IsSound sdk config s
      → (e : EpochRow) × (s' : Engine) × (ensure_epoch sdk now seed s ≡ (ok e, s'))
        × HasOpen e s'
        × IsSound sdk config s'
        × (s'.db.rules ≡ s.db.rules)
        × (s'.db.receipts ≡ s.db.receipts)
        × (s'.db.deposits ≡ s.db.deposits)
  ensure_epoch-IsSound s v = elim (open_epoch-none s.db.epochs v.ordered) [
    | inl q ↦
        let h = next_id-IsHistory s.db.epochs v.ordered q in
        (
          new_epoch sdk s.db now seed,
          with_new sdk now seed s,
          ensure_epoch-made sdk now seed s q h,
          record { older = s.db.epochs; newest = refl; is_open = refl },
          with_new-IsSound s h v,
          refl,
          refl,
          refl,
        )
    | inr (e, older, q, o, found) ↦ (
      e,
      s,
      ensure_epoch-found sdk now seed s e found,
      record { older = older; newest = q; is_open = o },
      v,
      refl,
      refl,
      refl,
    )
  ]
