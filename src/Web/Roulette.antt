-- ===== src/Web/Roulette.antt =====
-- web/lib/roulette.ts. A cell of the ribbon is a natural number: the first is 47, and a spin rests at
-- 45 or more. The jitter and the pixel positions, which are for display, are left out.
use foreseer.Base.{
  ℕ, zero, suc, ◌+◌, ◌-◌, ◌*◌, ◌%◌, ◌≤◌, ◌<◌, ◌≡◌, ap, ◌∙◌, true, Option, List, [], ◌∷◌, arith, any,
  length, leb, ◌==◌, nat_eq, if◌then◌else◌,
}
use foreseer.Web.Payout.{payout_bp}

pub data Tone : Type 0 where
  green primary dark : Tone

abbrev pub pocket_count : ℕ
pocket_count = 15

abbrev pub order : List ℕ
order = 0 ∷ 1 ∷ 8 ∷ 2 ∷ 9 ∷ 3 ∷ 10 ∷ 4 ∷ 11 ∷ 5 ∷ 12 ∷ 6 ∷ 13 ∷ 7 ∷ 14 ∷ []

-- The pocket at a place of ORDER; every caller's place is below 15.
abbrev pub at_place : List ℕ → ℕ → ℕ
at_place [] i = 0
at_place (p ∷ ps) zero = p
at_place (p ∷ ps) (suc i) = at_place ps i

-- SLOT[pocket], the place at which the pocket stands in ORDER.
abbrev pub place_of : ℕ → List ℕ → ℕ
place_of pocket [] = 0
place_of pocket (p ∷ ps) = let rest = place_of pocket ps in if p == pocket then 0 else suc rest

abbrev pub slot : ℕ → ℕ
slot pocket = place_of pocket order

abbrev pub tone_of : ℕ → Tone
tone_of pocket = if pocket == 0 then green else if leb pocket 7 then primary else dark

-- WHEEL_RULE: a draw from 0 to 14, which wins from 1 to 7.
pub record WheelRule : Type 0 where
  pub min : ℕ
  pub max : ℕ
  pub count : ℕ
  pub at_least : ℕ
  pub at_most : ℕ
  pub payout_bp : Option ℕ

unfoldable pub wheel_rule : WheelRule
unfolding payout_bp
wheel_rule = record {
  min = 0;
  max = pocket_count - 1;
  count = 1;
  at_least = 1;
  at_most = 7;
  payout_bp = payout_bp (7 - 1 + 1) pocket_count;
}

-- `((n % 15) + 15) % 15`.
abbrev pub wrap : ℕ → ℕ
wrap n = (n % 15 + 15) % 15

unfoldable pub pocket_at_cell : ℕ → ℕ
pocket_at_cell index = at_place order (wrap index)

pub record SpinTarget : Type 0 where
  pub target_cell : ℕ
  pub travel_cells : ℕ

abbrev pub target_from : ℕ → ℕ → ℕ
target_from start_cell want_slot = start_cell + 8 * 15 + (want_slot + 15 - wrap start_cell) % 15

-- `((wantSlot - startSlot) % 15 + 15) % 15` is the distance forward between two slots below 15.
unfoldable pub spin_target : ℕ → ℕ → SpinTarget
spin_target start_cell pocket = record {
  target_cell = target_from start_cell (slot pocket);
  travel_cells = target_from start_cell (slot pocket) - start_cell;
}

unfoldable pub rest_after_settle : ℕ → ℕ
rest_after_settle target_cell = 45 + wrap target_cell

at_place-place_of :
    (pocket : ℕ) (ps : List ℕ)
    → any (λ p. p == pocket) ps ≡ true
    → (place_of pocket ps < length ps) × (at_place ps (place_of pocket ps) ≡ pocket)
at_place-place_of pocket [] h = absurd (ground arith)
at_place-place_of pocket (p ∷ ps) h = ground (arith, at_place-place_of pocket ps)

all_pockets : (pocket : ℕ) → pocket < 15 → any (λ p. p == pocket) order ≡ true
all_pockets pocket h = ground arith

at_place-slot :
    (pocket : ℕ) → pocket < 15 → (slot pocket < 15) × (at_place order (slot pocket) ≡ pocket)
at_place-slot pocket h = at_place-place_of pocket order (all_pockets pocket h)

wrap-target_from : (start want : ℕ) → want < 15 → wrap (target_from start want) ≡ want
wrap-target_from start want h = omega arith

-- A spin to a pocket below 15 ends at a cell of that pocket, after eight rounds and less than
-- nine.
pub spin_target-pocket :
    (start_cell pocket : ℕ)
    → pocket < 15
    → (pocket_at_cell (spin_target start_cell pocket).target_cell ≡ pocket)
      × (120 ≤ (spin_target start_cell pocket).travel_cells)
      × ((spin_target start_cell pocket).travel_cells < 135)
unfolding pocket_at_cell spin_target
spin_target-pocket start_cell pocket h =
    let (low, place) = at_place-slot pocket h in
    let wrapped = wrap-target_from start_cell (slot pocket) low in
    (ap (at_place order) wrapped ∙ place, omega arith, omega arith)

-- The cell at which the ribbon rests shows the same pocket.
pub rest_after_settle-pocket :
    (target_cell : ℕ) → pocket_at_cell (rest_after_settle target_cell) ≡ pocket_at_cell target_cell
unfolding pocket_at_cell rest_after_settle
rest_after_settle-pocket target_cell =
    let same : wrap (45 + wrap target_cell) ≡ wrap target_cell = omega arith in
    ap (at_place order) same
