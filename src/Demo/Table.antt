-- ===== src/Demo/Table.antt =====
-- demo/static/roulette.js: the table of the demo casino, its chips and its ball. Angles are counted in
-- pockets from the top of the wheel, and what is only drawn is left out.
pub mod Ledger
pub mod Ball
use foreseer.Base.{
  ℕ, zero, suc, ◌+◌, ◌-◌, ◌*◌, ◌/◌, ◌%◌, Bool, true, false, Option, none, some, List, [], ◌∷◌, ltb,
  leb, any, ◌==◌, nat_eq, if◌then◌else◌, String,
}
use foreseer.Base.Int.{ℤ, pos, negsuc}

abbrev pub wheel : List ℕ
wheel =
    0 ∷ 32 ∷ 15 ∷ 19 ∷ 4 ∷ 21 ∷ 2 ∷ 25 ∷ 17 ∷ 34 ∷ 6 ∷ 27 ∷ 13 ∷ 36 ∷ 11 ∷ 30 ∷ 8 ∷ 23 ∷ 10 ∷ 5 ∷ 24
    ∷ 16 ∷ 33 ∷ 1 ∷ 20 ∷ 14 ∷ 31 ∷ 9 ∷ 22 ∷ 18 ∷ 29 ∷ 7 ∷ 28 ∷ 12 ∷ 35 ∷ 3 ∷ 26 ∷ []

abbrev pub red : List ℕ
red = 1 ∷ 3 ∷ 5 ∷ 7 ∷ 9 ∷ 12 ∷ 14 ∷ 16 ∷ 18 ∷ 19 ∷ 21 ∷ 23 ∷ 25 ∷ 27 ∷ 30 ∷ 32 ∷ 34 ∷ 36 ∷ []

abbrev pub color_of : ℕ → String
color_of n = if n == 0 then "green" else if any (λ r. r == n) red then "red" else "black"

-- Array.prototype.indexOf, where -1 is the place before 0 on the wheel.
abbrev pub index_from : ℕ → List ℕ → ℕ → ℕ
index_from i [] n = 36
index_from i (x ∷ xs) n = let rest = index_from (suc i) xs n in if x == n then i else rest

unfoldable pub index_of : ℕ → ℕ
index_of n = index_from 0 wheel n

-- Math.min(Math.max(parseInt(...) || 1, 1), 100); `none` is NaN.
abbrev pub stake_of : Option ℤ → ℕ
stake_of none = 1
stake_of (some (negsuc n)) = 1
stake_of (some (pos n)) = if leb n 1 then 1 else if leb 100 n then 100 else n

-- What the table reads of the answer to a spin.
pub record Spun : Type 0 where
  pub number : ℕ
  pub win : Bool
  pub payout_bp : ℕ

pub record Pending : Type 0 where
  pub spun : Spun
  pub stake : ℕ

-- `asked` is the stake of a request under way, `pending` the spin whose ball still rolls, and
-- `disabled` the state of the spin button.
pub record Table : Type 0 where
  pub chips : ℕ
  pub asked : Option ℕ
  pub pending : Option Pending
  pub disabled : Bool
  pub ball : ℕ
  pub spin_travel : ℕ

pub data TableEvent : Type 0 where
  spin_pressed : Option ℤ → TableEvent
  spin_answered : Spun → TableEvent
  spin_failed : TableEvent
  ball_landed : TableEvent

abbrev pub new_table : Table
new_table = record {
  chips = 1000;
  asked = none;
  pending = none;
  disabled = false;
  ball = 0;
  spin_travel = 0;
}

-- doSpin up to its request; a disabled button is not pressed.
unfoldable pub press_spin : ℕ → Table → Table
press_spin stake t =
    if t.disabled
    then t
    else if ltb t.chips stake
    then t
    else record t { asked = some stake; disabled = true }

-- 5 * TAU + ((norm - current + TAU) % TAU)
unfoldable pub travel_to : ℕ → ℕ → ℕ
travel_to target ball = 5 * 37 + (target % 37 + 37 - ball % 37) % 37

-- doSpin after its answer.
abbrev pub answered_to : Spun → Option ℕ → Table → Table
answered_to spun none t = t
answered_to spun (some stake) t = record t {
  chips = t.chips - stake;
  asked = none;
  pending = some (record { spun = spun; stake = stake });
  spin_travel = travel_to (index_of spun.number) t.ball;
}

abbrev pub failed_to : Option ℕ → Table → Table
failed_to none t = t
failed_to (some stake) t = record t { asked = none; disabled = false }

-- Math.round((stake * payoutBp) / 10000)
abbrev pub returned_for : Pending → ℕ
returned_for p = if p.spun.win then (p.stake * p.spun.payout_bp + 5000) / 10000 else 0

-- The last frame of `draw`, and `settle`.
abbrev pub landed_to : Option Pending → Table → Table
landed_to none t = t
landed_to (some p) t = record t {
  chips = t.chips + returned_for p;
  pending = none;
  disabled = false;
  ball = t.ball + t.spin_travel;
}

unfoldable pub table_step : TableEvent → Table → Table
table_step (spin_pressed typed) t = press_spin (stake_of typed) t
table_step (spin_answered spun) t = answered_to spun t.asked t
table_step spin_failed t = failed_to t.asked t
table_step ball_landed t = landed_to t.pending t

abbrev pub table_run : List TableEvent → Table → Table
table_run [] t = t
table_run (e ∷ es) t = table_run es (table_step e t)
