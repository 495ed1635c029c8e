-- ===== src/Web/Coinflip.antt =====
-- web/lib/coinflip.ts. Angles are whole degrees from 0 on, and the signature is given by the number
-- that parseInt reads from its last two digits.
use foreseer.Base.{
  ℕ, ◌+◌, ◌-◌, ◌*◌, ◌%◌, ◌≤◌, ◌<◌, ◌≡◌, ◌∙◌, ◌||◌, Option, arith, ltb, leb, ◌==◌, nat_eq,
  if◌then◌else◌,
}
use foreseer.Web.Payout.{payout_bp}

pub data Face : Type 0 where
  heads tails : Face

abbrev pub face_of : ℕ → Face
face_of draw = if draw == 1 then heads else tails

-- COIN_RULE: a draw of 0 or 1, which wins at 1.
pub record CoinRule : Type 0 where
  pub min : ℕ
  pub max : ℕ
  pub count : ℕ
  pub wins_at : ℕ
  pub payout_bp : Option ℕ

unfoldable pub coin_rule : CoinRule
unfolding payout_bp
coin_rule = record { min = 0; max = 1; count = 1; wins_at = 1; payout_bp = payout_bp 1 2 }

abbrev pub turns_from : ℕ → ℕ
turns_from byte = 4 + byte % 4

-- `((deg % 360) + 360) % 360`.
abbrev pub wrap_degrees : ℕ → ℕ
wrap_degrees deg = (deg % 360 + 360) % 360

unfoldable pub face_up_at : ℕ → Face
face_up_at deg = if ltb (wrap_degrees deg) 90 || leb 270 (wrap_degrees deg) then heads else tails

pub record FlipTarget : Type 0 where
  pub target_deg : ℕ
  pub turns : ℕ

abbrev pub want_deg : ℕ → ℕ
want_deg draw = if draw == 1 then 0 else 180

-- `((wantDeg - fromWrapped) % 360 + 360) % 360` is the turn forward between two angles below 360.
unfoldable pub flip_target : ℕ → ℕ → ℕ → FlipTarget
flip_target from_deg draw byte = record {
  target_deg =
      from_deg + turns_from byte * 360 + (want_deg draw + 360 - wrap_degrees from_deg) % 360;
  turns = turns_from byte;
}

unfoldable pub rest_after_flip : ℕ → ℕ
rest_after_flip target_deg = wrap_degrees target_deg

wrap-target :
    (from_deg turns want : ℕ)
    → want < 360
    → wrap_degrees (from_deg + turns * 360 + (want + 360 - wrap_degrees from_deg) % 360) ≡ want
wrap-target from_deg turns want h = omega arith

face_up_at-want : (deg draw : ℕ) → wrap_degrees deg ≡ want_deg draw → face_up_at deg ≡ face_of draw
unfolding face_up_at
face_up_at-want deg draw h = ground arith

want_deg-lt : (draw : ℕ) → want_deg draw < 360
want_deg-lt draw = ground arith

-- The coin lands with the face of its draw up, after four to seven turns, and rests with that face
-- up.
pub flip_target-face :
    (from_deg draw byte : ℕ)
    → (face_up_at (flip_target from_deg draw byte).target_deg ≡ face_of draw)
      × (face_up_at (rest_after_flip (flip_target from_deg draw byte).target_deg) ≡ face_of draw)
      × (4 ≤ (flip_target from_deg draw byte).turns)
      × ((flip_target from_deg draw byte).turns ≤ 7)
unfolding flip_target rest_after_flip
flip_target-face from_deg draw byte =
    let target = (flip_target from_deg draw byte).target_deg in
    let landed = wrap-target from_deg (turns_from byte) (want_deg draw) (want_deg-lt draw) in
    let rested : wrap_degrees (wrap_degrees target) ≡ wrap_degrees target = omega arith in
    (
      face_up_at-want target draw landed,
      face_up_at-want (wrap_degrees target) draw (rested ∙ landed),
      omega arith,
      omega arith,
    )
