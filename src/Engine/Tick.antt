-- ===== src/Engine/Tick.antt =====
-- `tick`: the scheduler keeps one epoch open, and replaces it when it is due.
use foreseer.Base.{
  ℕ, ◌+◌, ◌≤◌, ◌<◌, ◌≡◌, refl, true, false, Option, none, some, List, ◌∷◌, arith, inl, inr,
  Bool-cases, nat_eq, subst, leb,
}
use foreseer.Base.Exec.{ok, Result}
use foreseer.Sdk.{Bytes, Sdk}
use foreseer.Db.{EpochRow, is_open, open_epoch}
use foreseer.Db.Epochs.{IsHistory, EpochsAreOrdered, open_epoch-cons, max_epoch_id-cons}
use foreseer.Engine.{Engine, Config, Closed, close_open, tick, ensure_epoch, new_epoch}
use foreseer.Engine.Sound.{IsSound}
use foreseer.Engine.Open.{
  HasOpen, open_epoch-none, next_id, next_id-IsHistory, ensure_epoch-made, with_new,
  with_new-IsSound,
}
use foreseer.Engine.Close.{
  closed_row, close_of, with_closed, close_open-closed, with_closed-IsSound,
}

module _ (sdk : Sdk) (config : Config) (now : ℕ) (seed : Bytes) where
  -- What a tick may do: keep an epoch that is not due, open one where none is open, or close the
  -- epoch that is due and open its successor.
  pub data Rotation (s : Engine) : Result (Option ℕ × ℕ) × Engine → Type 0 where
    kept :
        (e : EpochRow)
        → HasOpen e s
        → now < e.opened_at + config.epoch_seconds
        → Rotation s (ok (none, e.epoch_id), s)
    opened :
        {s' : Engine} (e : EpochRow)
        → open_epoch s.db.epochs ≡ none
        → HasOpen e s'
        → e.opened_at ≡ now
        → s'.db.receipts ≡ s.db.receipts
        → Rotation s (ok (none, e.epoch_id), s')
    rotated :
        {s' : Engine} (e new : EpochRow) (older : List EpochRow)
        → s.db.epochs ≡ e ∷ older
        → e.opened_at + config.epoch_seconds ≤ now
        → s'.db.epochs ≡ new ∷ closed_row sdk config now e s ∷ older
        → HasOpen new s'
        → new.epoch_id ≡ e.epoch_id + 1
        → new.opened_at ≡ now
        → s'.db.receipts ≡ s.db.receipts
        → Rotation s (ok (some e.epoch_id, new.epoch_id), s')

  tick-kept :
      (s : Engine) (e : EpochRow)
      → open_epoch s.db.epochs ≡ some e
      → leb (e.opened_at + config.epoch_seconds) now ≡ false
      → tick sdk config now seed s ≡ (ok (none, e.epoch_id), s)
  unfolding tick ensure_epoch
  tick-kept s e h d = ground arith

  tick-opened :
      (s : Engine)
      → open_epoch s.db.epochs ≡ none
      → IsHistory (next_id s.db.epochs) s.db.epochs
      → tick sdk config now seed s
        ≡ (ok (none, (new_epoch sdk s.db now seed).epoch_id), with_new sdk now seed s)
  unfolding tick
  tick-opened s h k = ground (arith, ensure_epoch-made sdk now seed s h k)

  tick-rotated :
      (s c : Engine) (e : EpochRow) (closed : Closed)
      → open_epoch s.db.epochs ≡ some e
      → leb (e.opened_at + config.epoch_seconds) now ≡ true
      → close_open sdk config now s ≡ (ok (some closed), c)
      → ensure_epoch sdk now seed c ≡ (ok (new_epoch sdk c.db now seed), with_new sdk now seed c)
      → tick sdk config now seed s ≡ (
        ok (some closed.epoch_id, (new_epoch sdk c.db now seed).epoch_id),
        with_new sdk now seed c,
      )
  unfolding tick
  tick-rotated s c e closed h d q k = ground arith

  next_after :
      (e : EpochRow) (es : List EpochRow)
      → IsHistory e.epoch_id es
      → next_id (e ∷ es) ≡ e.epoch_id + 1
  unfolding next_id
  next_after e es h = ground (arith, max_epoch_id-cons e es h)

  abbrev after_rotation : EpochRow → List EpochRow → Engine → Engine
  after_rotation e older s = with_new sdk now seed (with_closed sdk config now e older s)

  rotate :
      (s : Engine) (e : EpochRow) (older : List EpochRow)
      → IsSound sdk config s
      → s.db.epochs ≡ e ∷ older
      → is_open e ≡ true
      → open_epoch s.db.epochs ≡ some e
      → leb (e.opened_at + config.epoch_seconds) now ≡ true
      → tick sdk config now seed s ≡ (
        ok (
          some e.epoch_id,
          (new_epoch sdk (with_closed sdk config now e older s).db now seed).epoch_id,
        ),
        after_rotation e older s,
      )
  rotate s e older v q o h d =
      let c = with_closed sdk config now e older s in
      let ordered : EpochsAreOrdered c.db.epochs = subst EpochsAreOrdered q v.ordered in
      let none_open = open_epoch-cons (closed_row sdk config now e s) older ordered in
      tick-rotated s c e (close_of sdk config now e s) h d
        (close_open-closed sdk config now s e older v q h)
        (ensure_epoch-made sdk now seed c none_open
          (next_id-IsHistory c.db.epochs ordered none_open))

  -- On a sound engine a tick never throws: it keeps the open epoch while it is not due, opens one
  -- where none is open, or closes the one that is due and opens its successor, with the next id.
  pub tick_rotates : (s : Engine) → IsSound sdk config s → Rotation s (tick sdk config now seed s)
  unfolding next_id
  tick_rotates s v = elim (open_epoch-none s.db.epochs v.ordered) [
    | inl h ↦ rw (tick-opened s h (next_id-IsHistory s.db.epochs v.ordered h)) (
        opened (new_epoch sdk s.db now seed) h
          (record { older = s.db.epochs; newest = refl; is_open = refl }) refl refl)
    | inr (e, older, q, o, h) ↦ elim (Bool-cases (leb (e.opened_at + config.epoch_seconds) now)) [
      | inl d ↦ rw (rotate s e older v q o h d) (
          rotated e _ older q (ground arith) refl
            (record { older = _; newest = refl; is_open = refl })
            (next_after (closed_row sdk config now e s) older (subst EpochsAreOrdered q v.ordered))
            refl refl)
      | inr d ↦
          rw (tick-kept s e h d)
            (kept e (record { older = older; newest = q; is_open = o }) (ground arith))
    ]
  ]

  pub tick-IsSound :
      (s : Engine) → IsSound sdk config s → IsSound sdk config (tick sdk config now seed s).1
  tick-IsSound s v = elim (open_epoch-none s.db.epochs v.ordered) [
    | inl h ↦
        let k = next_id-IsHistory s.db.epochs v.ordered h in
        rw (tick-opened s h k) (with_new-IsSound sdk config now seed s k v)
    | inr (e, older, q, o, h) ↦ elim (Bool-cases (leb (e.opened_at + config.epoch_seconds) now)) [
      | inl d ↦
          let c = with_closed sdk config now e older s in
          let ordered : EpochsAreOrdered c.db.epochs = subst EpochsAreOrdered q v.ordered in
          let none_open = open_epoch-cons (closed_row sdk config now e s) older ordered in
          rw (rotate s e older v q o h d) (
            with_new-IsSound sdk config now seed c (next_id-IsHistory c.db.epochs ordered none_open)
              (with_closed-IsSound sdk config now s e older q o v))
      | inr d ↦ rw (tick-kept s e h d) v
    ]
  ]

  -- A tick moves no money.
  pub tick-same :
      (s : Engine)
      → IsSound sdk config s
      → ((tick sdk config now seed s).1.db.receipts ≡ s.db.receipts)
        × ((tick sdk config now seed s).1.db.deposits ≡ s.db.deposits)
        × ((tick sdk config now seed s).1.db.rules ≡ s.db.rules)
  tick-same s v = elim (open_epoch-none s.db.epochs v.ordered) [
    | inl h ↦ rw (tick-opened s h (next_id-IsHistory s.db.epochs v.ordered h)) (refl, refl, refl)
    | inr (e, older, q, o, h) ↦ elim (Bool-cases (leb (e.opened_at + config.epoch_seconds) now)) [
      | inl d ↦ rw (rotate s e older v q o h d) (refl, refl, refl)
      | inr d ↦ rw (tick-kept s e h d) (refl, refl, refl)
    ]
  ]
