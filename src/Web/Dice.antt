-- ===== src/Web/Dice.antt =====
-- web/lib/dice.ts. A percentage is a whole number or not finite (`none`): Math.round keeps it.
use Prim.Native.String.{◌++◌}
use foreseer.Base.{
  ℕ, zero, suc, ◌-◌, ◌*◌, ◌/◌, ◌%◌, ◌≤◌, ◌<◌, ◌≡◌, ap, ◌∙◌, String, Bool, Option, none, some, List,
  [], ◌∷◌, arith, ltb, count, if◌then◌else◌,
}
use foreseer.Base.Int.{ℤ, pos, negsuc}
use foreseer.Base.Text.{decimal}
use foreseer.Web.Payout.{rtp_bp, payout_bp, payout_bp-le}

pub data Mode : Type 0 where
  under over : Mode

abbrev pub outcomes : ℕ
outcomes = 10000

abbrev pub max_draw : ℕ
max_draw = 9999

abbrev pub clamp : ℕ → ℕ
clamp n = if ltb n 1 then 1 else if ltb 99 n then 99 else n

abbrev pub clamp_target : Option ℤ → ℕ
clamp_target none = 50
clamp_target (some (pos n)) = clamp n
clamp_target (some (negsuc n)) = 1

abbrev pub target_units : Option ℤ → ℕ
target_units percent = clamp_target percent * 100

unfoldable pub win_count : Option ℤ → Mode → ℕ
win_count percent under = target_units percent
win_count percent over = max_draw - target_units percent

unfoldable pub is_hit : ℕ → Option ℤ → Mode → Bool
is_hit draw percent under = ltb draw (target_units percent)
is_hit draw percent over = ltb (target_units percent) draw

-- The rule's operator and bound; the other members are the same for every rule.
pub record DiceRule : Type 0 where
  pub min : ℕ
  pub max : ℕ
  pub count : ℕ
  pub op : String
  pub bound : ℕ
  pub payout_bp : ℕ

abbrev pub op_of : Mode → String
op_of under = "<"
op_of over = ">"

abbrev pub rule_with : Option ℤ → Mode → Option ℕ → Option DiceRule
rule_with percent mode none = none
rule_with percent mode (some payout) = some (record {
  min = 0;
  max = max_draw;
  count = 1;
  op = op_of mode;
  bound = target_units percent;
  payout_bp = payout;
})

unfoldable pub dice_rule : Option ℤ → Mode → Option DiceRule
unfolding win_count payout_bp
dice_rule percent mode = rule_with percent mode (payout_bp (win_count percent mode) outcomes)

-- `padStart(2, "0")` of a number below 100.
abbrev pub two_digits : ℕ → String
two_digits n = if ltb n 10 then "0" ++ decimal n else decimal n

abbrev pub roll_label : ℕ → String
roll_label draw = decimal (draw / 100) ++ "." ++ two_digits (draw % 100)

-- The draws below `n`.
unfoldable pub draws_below : ℕ → List ℕ
draws_below zero = []
draws_below (suc n) = n ∷ draws_below n

clamp_target-range : (percent : Option ℤ) → (1 ≤ clamp_target percent) × (clamp_target percent ≤ 99)
clamp_target-range none = ground arith
clamp_target-range (some (pos n)) = ground arith
clamp_target-range (some (negsuc n)) = ground arith

count-under : (t n : ℕ) → count (λ d. ltb d t) (draws_below n) ≡ (if ltb t n then t else n)
unfolding draws_below
count-under t zero = ground arith
count-under t (suc n) = ground (arith, count-under t n)

count-over : (t n : ℕ) → count (λ d. ltb t d) (draws_below n) ≡ (n - 1) - t
unfolding draws_below
count-over t zero = omega arith
count-over t (suc n) = ground (arith, count-over t n)

-- The number of winning draws that the payout is computed from is the number of draws that hit.
pub win_count-count :
    (percent : Option ℤ) (mode : Mode)
    → count (λ d. is_hit d percent mode) (draws_below outcomes) ≡ win_count percent mode
unfolding win_count is_hit
win_count-count percent under =
    let fewer = (clamp_target-range percent).1 in
    count-under (target_units percent) outcomes ∙ ground arith
win_count-count percent over = count-over (target_units percent) outcomes

win_count-pos : (percent : Option ℤ) (mode : Mode) → 1 ≤ win_count percent mode
unfolding win_count
win_count-pos percent under = omega (arith, clamp_target-range percent)
win_count-pos percent over = omega (arith, clamp_target-range percent)

payout_bp-some : (w o : ℕ) → 1 ≤ w → payout_bp w o ≡ some (rtp_bp * o / w)
unfolding payout_bp
payout_bp-some w o h = ground arith

-- The rule of every target and mode exists, and over all draws it pays back 99 % of the stakes,
-- rounded down to a whole basis point of each payout.
pub dice_rule-le :
    (percent : Option ℤ) (mode : Mode)
    → (r : DiceRule) × (dice_rule percent mode ≡ some r)
      × (count (λ d. is_hit d percent mode) (draws_below outcomes) * r.payout_bp
          ≤ rtp_bp * outcomes)
      × (rtp_bp * outcomes
          < count (λ d. is_hit d percent mode) (draws_below outcomes) * suc r.payout_bp)
unfolding dice_rule
dice_rule-le percent mode =
    let w = win_count percent mode in
    let paid = payout_bp-some w outcomes (win_count-pos percent mode) in
    let (low, high) = payout_bp-le w outcomes (rtp_bp * outcomes / w) paid in
    let hits = win_count-count percent mode in
    (_, ap (rule_with percent mode) paid, rw hits low, rw hits high)
