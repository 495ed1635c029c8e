-- ===== src/Web/Payout.antt =====
-- payoutBp, which web/lib/dice.ts, coinflip.ts and roulette.ts each declare in the same words.
use foreseer.Base.{ℕ, suc, ◌*◌, ◌/◌, ◌≤◌, ◌<◌, ◌≡◌, Option, none, some, arith, ltb, if◌then◌else◌}

abbrev pub rtp_bp : ℕ
rtp_bp = 9900

-- `none` where it throws.
unfoldable pub payout_bp : ℕ → ℕ → Option ℕ
payout_bp win_count outcome_count =
    if ltb win_count 1 then none else some (rtp_bp * outcome_count / win_count)

-- A payout returns 99 % of the stakes over all outcomes, rounded down to a whole basis point: one
-- more would return more.
pub payout_bp-le :
    (win_count outcome_count p : ℕ)
    → payout_bp win_count outcome_count ≡ some p
    → (win_count * p ≤ rtp_bp * outcome_count) × (rtp_bp * outcome_count < win_count * suc p)
unfolding payout_bp
payout_bp-le win_count outcome_count p h = grind arith
