-- ===== src/Demo/Table/Ball.antt =====
-- The ball of the table rests on the drawn number.
use foreseer.Base.{
  ℕ, zero, suc, ◌+◌, ◌*◌, ◌%◌, ◌<◌, ◌≡◌, refl, Bool, true, false, Option, none, some, arith,
  get_elem?, get_elem?-lt, ap, ◌∙◌, ◌≤◌, ◌==◌, nat_eq, if◌then◌else◌, Bool-cases, inl, inr,
}
use foreseer.Demo.Table.{
  wheel, index_of, Spun, table_step, spin_answered, ball_landed, Table, travel_to, answered_to,
}

is_at : ℕ → Option ℕ → Bool
is_at n none = false
is_at n (some m) = m == n

is_at-eq : (n : ℕ) (o : Option ℕ) → is_at n o ≡ true → o ≡ some n
unfolding is_at
is_at-eq n none h = absurd (ground arith)
is_at-eq n (some m) h = ground arith

-- A test of the numbers below `k`.
every_below : (ℕ → Bool) → ℕ → Bool
every_below p zero = true
every_below p (suc k) = let rest = every_below p k in if p k then rest else false

every_below-lt : (p : ℕ → Bool) (k n : ℕ) → every_below p k ≡ true → n < k → p n ≡ true
unfolding every_below
every_below-lt p zero n h l = absurd (omega arith)
every_below-lt p (suc k) n h l = elim (Bool-cases (n == k)) [
  | inl last ↦ let e : n ≡ k = ground arith in rw e (ground arith)
  | inr before ↦ every_below-lt p k n (ground arith) (ground arith)
]

is_on_wheel : ℕ → Bool
unfolding is_at
is_on_wheel n = is_at n (get_elem? wheel (index_of n))

wheel_has : every_below is_on_wheel 37 ≡ true
unfolding every_below is_on_wheel is_at index_of
wheel_has = refl

-- Every number of the game stands on the wheel, where indexOf finds it.
index_of-wheel : (n : ℕ) → n < 37 → get_elem? wheel (index_of n) ≡ some n
unfolding is_on_wheel
index_of-wheel n h =
    is_at-eq n (get_elem? wheel (index_of n)) (every_below-lt is_on_wheel 37 n wheel_has h)

-- A roll of five rounds at least ends over its target.
travel_to_lem : (target ball : ℕ) → (ball + travel_to target ball) % 37 ≡ target % 37
unfolding travel_to
travel_to_lem target ball = omega arith

travel_to-le :
    (target ball : ℕ) → (5 * 37 ≤ travel_to target ball) × (travel_to target ball < 6 * 37)
unfolding travel_to
travel_to-le target ball = (omega arith, omega arith)

-- The pocket under the ball.
pub pocket : Table → Option ℕ
pocket t = get_elem? wheel (t.ball % 37)

index_of-lt : (n : ℕ) → n < 37 → index_of n < 37
index_of-lt n h = get_elem?-lt wheel (index_of n) n (index_of-wheel n h)

-- When a spin that was asked for is answered with a number below 37, the ball lands on that
-- number, after five rounds and less than six.
pub landed-pocket :
    (spun : Spun) (stake : ℕ) (t : Table)
    → t.asked ≡ some stake
    → spun.number < 37
    → let rolling = table_step (spin_answered spun) t in
      (pocket (table_step ball_landed rolling) ≡ some spun.number)
      × (5 * 37 ≤ rolling.spin_travel)
      × (rolling.spin_travel < 6 * 37)
unfolding table_step pocket
landed-pocket spun stake t h l =
    let i = index_of spun.number in
    let rolling : table_step (spin_answered spun) t ≡ answered_to spun (some stake) t =
      ap (λ a. answered_to spun a t) h in
    let place : (t.ball + travel_to i t.ball) % 37 ≡ i =
      omega (arith, travel_to_lem i t.ball, index_of-lt spun.number l) in
    let (low, high) = travel_to-le i t.ball in
    rw rolling (ap (get_elem? wheel) place ∙ index_of-wheel spun.number l, low, high)
