-- ===== src/Db/Epochs.antt =====
-- The table `epochs`: at most one epoch is open, and it is the newest.
use foreseer.Base.{
  ℕ, ◌≤◌, ◌<◌, ◌≡◌, refl, String, true, false, none, some, List, [], ◌∷◌, arith, filter, any, ◌==◌,
  nat_eq,
}
use foreseer.Db.Tables.{
  Db, EpochRow, is_open, open_epoch, epoch_by_id, max_epoch_id, set_closed, insert_epoch,
}

-- Closed epochs only, their ids falling from below `n`.
abbrev pub IsHistory : ℕ → List EpochRow → Type 0
IsHistory n [] = Unit
IsHistory n (e ∷ es) = (e.epoch_id < n) × (is_open e ≡ false) × IsHistory e.epoch_id es

abbrev pub EpochsAreOrdered : List EpochRow → Type 0
EpochsAreOrdered [] = Unit
EpochsAreOrdered (e ∷ es) = IsHistory e.epoch_id es

pub filter-IsHistory : (n : ℕ) (es : List EpochRow) → IsHistory n es → filter is_open es ≡ []
filter-IsHistory n [] h = refl
filter-IsHistory n (e ∷ es) h = ground (arith, filter-IsHistory e.epoch_id es h.2)

pub open_epoch-cons :
    (e : EpochRow) (es : List EpochRow)
    → IsHistory e.epoch_id es
    → open_epoch (e ∷ es) ≡ elim (is_open e) [ true ↦ some e | false ↦ none ]
unfolding open_epoch
open_epoch-cons e es h = ground (arith, filter-IsHistory e.epoch_id es h)

pub max_epoch_id-cons :
    (e : EpochRow) (es : List EpochRow)
    → IsHistory e.epoch_id es
    → max_epoch_id (e ∷ es) ≡ some e.epoch_id
unfolding max_epoch_id
max_epoch_id-cons e [] h = refl
max_epoch_id-cons e (f ∷ es) h = ground (arith, max_epoch_id-cons f es h.2)

pub epoch_by_id-above :
    (n i : ℕ) (es : List EpochRow) → IsHistory n es → n ≤ i → epoch_by_id i es ≡ none
unfolding epoch_by_id
epoch_by_id-above n i [] h k = refl
epoch_by_id-above n i (e ∷ es) h k = ground (arith, epoch_by_id-above e.epoch_id i es h.2)

pub epoch_by_id-lt :
    (n i : ℕ) (es : List EpochRow) (e : EpochRow)
    → IsHistory n es
    → epoch_by_id i es ≡ some e
    → (i < n) × (e.epoch_id ≡ i) × (is_open e ≡ false)
unfolding epoch_by_id
epoch_by_id-lt n i [] e h k = ground arith
epoch_by_id-lt n i (f ∷ es) e h k = ground (arith, epoch_by_id-lt f.epoch_id i es e h.2)

pub set_closed-above :
    (n i now : ℕ) (root : String) (c : ℕ) (signature : String) (es : List EpochRow)
    → IsHistory n es
    → n ≤ i
    → set_closed i now root c signature es ≡ es
unfolding set_closed
set_closed-above n i now root c signature [] h k = refl
set_closed-above n i now root c signature (e ∷ es) h k =
    ground (arith, set_closed-above e.epoch_id i now root c signature es h.2)

-- The UPDATE of a close reaches the newest epoch and no other.
pub set_closed-cons :
    (e : EpochRow) (now : ℕ) (root : String) (c : ℕ) (signature : String) (es : List EpochRow)
    → IsHistory e.epoch_id es
    → set_closed e.epoch_id now root c signature (e ∷ es)
      ≡ record e {
        closed_at = some now;
        merkle_root = some root;
        receipt_count = some c;
        close_signature = some signature;
      }
        ∷ es
unfolding set_closed
set_closed-cons e now root c signature es h =
    ground (arith, set_closed-above e.epoch_id e.epoch_id now root c signature es h)

taken :
    (n i : ℕ) (es : List EpochRow) → IsHistory n es → n ≤ i → any (λ f. f.epoch_id == i) es ≡ false
taken n i [] h k = refl
taken n i (e ∷ es) h k = ground (arith, taken e.epoch_id i es h.2)

-- A new epoch above the newest one is inserted.
pub insert_epoch-cons :
    (row : EpochRow) (db : Db)
    → IsHistory row.epoch_id db.epochs
    → insert_epoch row db ≡ some (record db { epochs = row ∷ db.epochs })
unfolding insert_epoch
insert_epoch-cons row db h = ground (arith, taken row.epoch_id row.epoch_id db.epochs h)
