-- ===== src/Web/DemoEpoch/Steady.antt =====
-- What holds of the hook between two events, and while a handle has been awaited.
use foreseer.Base.{
  ℕ, suc, ◌+◌, ◌≡◌, refl, Bool, true, false, Option, none, some, List, [], ◌∷◌, ◌++◌, arith,
}
use foreseer.Web.DemoTee.{PlayRecord}
use foreseer.Web.DemoEpoch.{
  Phase, cold, arming, ready, playing, settled, revealing, revealed, failed, arming_from,
  ready_from, busy_phase, is_settled, Waiter, observer, player, Hook, snapshot, mounted,
}

abbrev pub players : List Waiter → ℕ
players [] = 0
players (observer ∷ ws) = players ws
players (player rule ∷ ws) = suc (players ws)

abbrev pub shown : Option PlayRecord → Bool
shown none = false
shown (some p) = true

abbrev pub as_one : Bool → ℕ
as_one true = 1
as_one false = 0

-- Between two events: `busy` counts the play under way, an animation runs on an armed engine in the
-- phase "playing", and else the view is the engine's snapshot.
pub record Steady {T : Type 0} (s : Hook T) : Type 0 where
  pub one_play : players s.waiting + as_one (shown s.animation) ≡ as_one s.busy
  pub armed_late : s.armed ≡ true → is_settled s.loading ≡ true
  pub animates :
      shown s.animation ≡ true → (s.armed ≡ true) × (s.waiting ≡ []) × (s.phase ≡ playing)
  pub still_busy : busy_phase s.phase ≡ true → s.alive ≡ true → shown s.animation ≡ true
  pub fresh :
      s.armed ≡ true
      → s.alive ≡ true
      → shown s.animation ≡ false
      → s.view ≡ some (snapshot s.engine)

pub same_hook : {T : Type 0} (s s' : Hook T) → s' ≡ s → Steady s → Steady s'
same_hook s s' p v = rw p v

pub busy-arming_from : (p : Phase) → busy_phase (arming_from p) ≡ busy_phase p
busy-arming_from cold = refl
busy-arming_from arming = refl
busy-arming_from ready = refl
busy-arming_from playing = refl
busy-arming_from settled = refl
busy-arming_from revealing = refl
busy-arming_from revealed = refl
busy-arming_from failed = refl

pub busy-ready_from : (p : Phase) → busy_phase (ready_from p) ≡ false
busy-ready_from cold = refl
busy-ready_from arming = refl
busy-ready_from ready = refl
busy-ready_from playing = refl
busy-ready_from settled = refl
busy-ready_from revealing = refl
busy-ready_from revealed = refl
busy-ready_from failed = refl

pub players-append :
    (ws : List Waiter) (w : Waiter) → players (ws ++ w ∷ []) ≡ players ws + players (w ∷ [])
players-append [] w = omega arith
players-append (observer ∷ ws) w = players-append ws w
players-append (player rule ∷ ws) w = omega (arith, players-append ws w)

module _ {T : Type 0} where
  pub mounted-Steady : (t : T) → Steady (mounted t)
  mounted-Steady t = record {
    one_play = refl;
    armed_late = λ h. ground arith;
    animates = λ h. ground arith;
    still_busy = λ h a. ground arith;
    fresh = λ h a n. ground arith;
  }

  pub unmounted-Steady : (s : Hook T) → Steady s → Steady (record s { alive = false })
  unmounted-Steady s v = record {
    one_play = v.one_play;
    armed_late = v.armed_late;
    animates = v.animates;
    still_busy = λ h a. ground arith;
    fresh = λ h a n. ground arith;
  }

  -- No animation runs and nobody waits, as when the handle has been awaited.
  pub record Quiet (s : Hook T) : Type 0 where
    pub nobody : s.waiting ≡ []
    pub no_animation : shown s.animation ≡ false
    pub armed_late : s.armed ≡ true → is_settled s.loading ≡ true
    pub still_busy : busy_phase s.phase ≡ true → s.alive ≡ true → shown s.animation ≡ true
    pub fresh : s.armed ≡ true → s.alive ≡ true → s.view ≡ some (snapshot s.engine)

  pub settle-Steady : (s : Hook T) → Quiet s → s.busy ≡ false → Steady s
  settle-Steady s v idle = record {
    one_play = ground (arith, v.nobody, v.no_animation);
    armed_late = v.armed_late;
    animates = λ h. ground (arith, v.no_animation);
    still_busy = v.still_busy;
    fresh = λ h a n. v.fresh h a;
  }

  pub same-Quiet : (s s' : Hook T) → s' ≡ s → Quiet s → Quiet s'
  same-Quiet s s' p v = rw p v

  pub Steady-Quiet : (s : Hook T) → Steady s → s.waiting ≡ [] → s.busy ≡ false → Quiet s
  Steady-Quiet s v nobody b = record {
    nobody = nobody;
    no_animation = ground (arith, v.one_play);
    armed_late = v.armed_late;
    still_busy = v.still_busy;
    fresh = λ h a. v.fresh h a (ground (arith, v.one_play));
  }

  -- Nobody waits for a promise that is settled.
  abbrev pub Idle : Hook T → Type 0
  Idle s = is_settled s.loading ≡ true → s.waiting ≡ []
