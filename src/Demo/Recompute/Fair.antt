-- ===== src/Demo/Recompute/Fair.antt =====
-- The rejection makes the draw fair: of the accepted words, equally many give each result.
use native.Mathlib.Nat.{mul-add-mod_self_left, mod-eq_of_lt, div-add-mod, mul-suc}
use foreseer.Base.{
  ℕ, zero, suc, ◌+◌, ◌*◌, ◌/◌, ◌%◌, ◌^◌, ◌≤◌, ◌<◌, ◌≡◌, ap, ◌∙◌, arith, ltb, ◌==◌, nat_eq,
  if◌then◌else◌,
}
use foreseer.Demo.Recompute.{draw_limit}

-- How many words below `n` give the result `r`.
unfoldable pub words_for : ℕ → ℕ → ℕ → ℕ
words_for range r zero = 0
words_for range r (suc n) =
    let rest = words_for range r n in if n % range == r then suc rest else rest

words_at : (range r n m : ℕ) → n ≡ m → words_for range r n ≡ words_for range r m
words_at range r n m p = ap (words_for range r) p

-- In the `q`-th block of `range` words, each result comes once, at its own place.
in_block :
    (range r q k : ℕ)
    → k ≤ range
    → words_for range r (range * q + k) ≡ words_for range r (range * q) + (if ltb r k then 1 else 0)
unfolding words_for
in_block range r q zero h =
    ground (arith, words_at range r (range * q + 0) (range * q) (omega arith))
in_block range r q (suc k) h =
    let e : (range * q + k) % range ≡ k =
      mul-add-mod_self_left range q k ∙ mod-eq_of_lt (omega arith) in
    ground (
      arith,
      words_at range r (range * q + suc k) (suc (range * q + k)) (omega arith),
      in_block range r q k (omega arith),
    )

in_blocks : (range r q : ℕ) → r < range → words_for range r (range * q) ≡ q
unfolding words_for
in_blocks range r zero h = words_at range r (range * 0) 0 (omega arith)
in_blocks range r (suc q) h = ground (
  arith,
  words_at range r (range * suc q) (range * q + range) (mul-suc range q),
  in_block range r q range (omega arith),
  in_blocks range r q h,
)

-- Below the limit, every result below the range is the remainder of the same number of words, 2 ^
-- 32 divided by the range.
pub words_for-draw_limit :
    (range r : ℕ) → r < range → words_for range r (draw_limit range) ≡ 2 ^ 32 / range
unfolding draw_limit
words_for-draw_limit range r h =
    words_at range r (draw_limit range) (range * (2 ^ 32 / range))
      (omega (arith, div-add-mod (2 ^ 32) range))
    ∙ in_blocks range r (2 ^ 32 / range) h
