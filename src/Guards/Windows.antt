-- ===== src/Guards/Windows.antt =====
-- The fixed windows of the rate guards: within a window, a caller is let through `limit` times.
use Prim.Native.Nat.{max}
use foreseer.Base.{
  ℕ, suc, ◌+◌, ◌-◌, ◌*◌, ◌/◌, map, ◌≤◌, ◌≡◌, refl, Bool, true, false, Option, none, some, List, [],
  ◌∷◌, arith, ltb, ◌==◌, Eq, nat_eq, string_eq, if◌then◌else◌, Option-cases, inl, inr,
}
use foreseer.Base.JsMap.{JsMap, get, set, get-set}
use foreseer.Base.Exec.{Result, ok, err}
use foreseer.Guards.{Window, Rate, count_in, play_rate_guard, window_at}

abbrev is_ok : {A : Type 0} → Result A → Bool
is_ok (ok a) = true
is_ok (err e) = false

-- How often a caller may still be let through in the window `w`.
abbrev allowance : ℕ → ℕ → Option Window → ℕ
allowance limit w none = max 1 limit
allowance limit w (some e) =
    if e.window == w then limit - e.count else if ltb w e.window then 0 else max 1 limit

abbrev NotAfter : ℕ → Option Window → Type 0
NotAfter v none = Unit
NotAfter v (some e) = e.window ≤ v

-- The clock does not run backwards.
abbrev pub InOrder : {K : Type 0} → ℕ → List (K × ℕ) → Type 0
InOrder v [] = Unit
InOrder v ((j, u) ∷ reqs) = (v ≤ u) × InOrder u reqs

module _ {K : Type 0} ⦃q : Eq K⦄ (limit : ℕ) where
  -- The requests (caller and window) that a guard lets through of `k` in the window `w`.
  abbrev pub admitted : K → ℕ → List (K × ℕ) → JsMap K Window → ℕ
  admitted k w [] m = 0
  admitted k w ((j, v) ∷ reqs) m =
      let (r, m') = count_in limit j v (get m j) m in
      let rest = admitted k w reqs m' in
      if is_ok r then (if j == k then (if v == w then suc rest else rest) else rest) else rest

  admitted-le-allowance :
      (k : K) (w v : ℕ) (reqs : List (K × ℕ)) (m : JsMap K Window)
      → InOrder v reqs
      → NotAfter v (get m k)
      → admitted k w reqs m ≤ allowance limit w (get m k)
  admitted-le-allowance k w v [] m h n = omega arith
  admitted-le-allowance k w v ((j, u) ∷ reqs) m h n =
      let new : Window = record { window = u; count = 1 } in
      elim (Option-cases (get m j)) [
        | inl e ↦ ground (
          arith,
          q.beq_iff j k,
          get-set m j k new,
          admitted-le-allowance k w u reqs (set m j new) h.1,
        )
        | inr (old, e) ↦
            let bumped : Window = record old { count = old.count + 1 } in
            ground (
              arith,
              q.beq_iff j k,
              get-set m j k new,
              get-set m j k bumped,
              admitted-le-allowance k w u reqs m h.1,
              admitted-le-allowance k w u reqs (set m j new) h.1,
              admitted-le-allowance k w u reqs (set m j bumped) h.1,
            )
      ]

-- The plays (operator and time in milliseconds) that PlayRateGuard lets through of `id` in a window.
abbrev pub admitted_plays : Rate → ℕ → ℕ → List (ℕ × ℕ) → JsMap ℕ Window → ℕ
admitted_plays rate id w [] m = 0
admitted_plays rate id w ((j, now_ms) ∷ reqs) m =
    let (r, m') = play_rate_guard rate j now_ms m in
    let rest = admitted_plays rate id w reqs m' in
    if is_ok r
    then (if j == id then (if window_at rate now_ms == w then suc rest else rest) else rest)
    else rest

abbrev windows : Rate → List (ℕ × ℕ) → List (ℕ × ℕ)
windows rate = map λ (j, now_ms). (j, window_at rate now_ms)

admitted_plays-windows :
    (rate : Rate) (id w : ℕ) (reqs : List (ℕ × ℕ)) (m : JsMap ℕ Window)
    → admitted_plays rate id w reqs m ≡ admitted rate.limit id w (windows rate reqs) m
unfolding play_rate_guard
admitted_plays-windows rate id w [] m = refl
admitted_plays-windows rate id w ((j, now_ms) ∷ reqs) m =
    rw (admitted_plays-windows rate id w reqs (play_rate_guard rate j now_ms m).1)

div_mono : (a b d : ℕ) → a ≤ b → a / d ≤ b / d
div_mono a b d h = grind arith

windows-InOrder :
    (rate : Rate) (t : ℕ) (reqs : List (ℕ × ℕ))
    → InOrder t reqs
    → InOrder (window_at rate t) (windows rate reqs)
windows-InOrder rate t [] h = tt
windows-InOrder rate t ((j, now_ms) ∷ reqs) h =
    (div_mono t now_ms (rate.window_seconds * 1000) h.0, windows-InOrder rate now_ms reqs h.1)

-- Whatever the operators do, none is let through more often than the limit in one window (and
-- once, where the limit is 0), as long as the clock does not run backwards.
pub admitted_plays-le-limit :
    (rate : Rate) (id w : ℕ) (reqs : List (ℕ × ℕ))
    → InOrder 0 reqs
    → admitted_plays rate id w reqs [] ≤ max 1 rate.limit
unfolding get
admitted_plays-le-limit rate id w reqs h = rw (admitted_plays-windows rate id w reqs []) (
    admitted-le-allowance rate.limit id w (window_at rate 0) (windows rate reqs) []
      (windows-InOrder rate 0 reqs h) tt)
