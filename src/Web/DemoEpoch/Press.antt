-- ===== src/Web/DemoEpoch/Press.antt =====
-- A press of an enabled play button ends.
use foreseer.Base.{
  ◌≡◌, ◌⊎◌, refl, String, true, false, Option, none, some, List, [], ◌∷◌, ◌++◌, arith, length, leb,
  inl, inr, Bool-cases,
}
use foreseer.Base.Exec.{Result, ok, err, Result-cases}
use foreseer.Json.{Value}
use foreseer.Sdk.{Sdk}
use foreseer.Web.DemoTee.{ReferenceTee, DemoConfig, PlayRecord, Demo, rule_or, demo_play}
use foreseer.Web.DemoEpoch.{
  settled, failed, busy_phase, Hook, Event, play_pressed, animated, snapshot, mounted, can_play,
  played, animated_to, play_on, flush, on_play, on_animated, hook_run,
}
use foreseer.Web.DemoEpoch.Steady.{Steady, Quiet, shown, Idle, Steady-Quiet}
use foreseer.Web.DemoEpoch.Flush.{flush-nobody}
use foreseer.Web.DemoEpoch.Fresh.{hook_run-Steady}

module _ {T : Type 0} where
  -- How a press of play ends: with the record that the engine added, shown, or with an error.
  pub Ended : Hook T → Hook T → Type 0
  Ended s s' =
      (s'.busy ≡ false)
      × ((s'.phase ≡ failed)
          ⊎ ((s'.phase ≡ settled)
              × (s'.view ≡ some (snapshot s'.engine))
              × ((p : PlayRecord) × (s'.last ≡ some p)
                  × (s'.engine.plays ≡ s.engine.plays ++ p ∷ []))))

  not_shown : (s : Hook T) → Steady s → busy_phase s.phase ≡ false → shown s.animation ≡ false
  not_shown s v calm = elim (Bool-cases (shown s.animation)) [
    | inr quiet ↦ quiet
    | inl runs ↦ absurd (ground (arith, v.animates runs))
  ]

  animated_to-none : (q : Option PlayRecord) (s : Hook T) → shown q ≡ false → animated_to q s ≡ s
  animated_to-none none s h = refl
  animated_to-none (some p) s h = absurd (ground arith)

  animated_to-some :
      (p : PlayRecord) (s : Hook T)
      → s.alive ≡ true
      → animated_to (some p) s ≡ record s {
        animation = none;
        busy = false;
        last = some p;
        view = some (snapshot s.engine);
        phase = settled;
      }
  animated_to-some p s live = ground arith

  same_end : (s s1 s2 : Hook T) → s2 ≡ s1 → Ended s s1 → Ended s s2
  same_end s s1 s2 p v = rw p v

  reachable : (s s' : Hook T) → s ≡ s' → Steady s' × Idle s' → Steady s × Idle s
  reachable s s' p v = rw p v

module _ {T : Type 0} (sdk : Sdk) (tee : ReferenceTee T) (config : DemoConfig)
    (client_seed : String) where
  demo_play-ok :
      (rule : Option Value) (d : Demo T) (p : PlayRecord)
      → (demo_play sdk tee config client_seed rule d).0 ≡ ok p
      → (demo_play sdk tee config client_seed rule d).1.plays ≡ d.plays ++ p ∷ []
  unfolding demo_play
  demo_play-ok rule d p h = elim (Bool-cases d.is_open) [
    | inr c ↦ absurd (ground arith)
    | inl o ↦ elim (Bool-cases (leb config.max_plays (length d.plays))) [
      | inl f ↦ absurd (ground arith)
      | inr room ↦ elim (Result-cases (tee.play client_seed (rule_or rule config.rule) d.tee).0) [
        | inl (e', q) ↦ absurd (ground arith)
        | inr (bet, q) ↦ ground arith
      ]
    ]
  ]

  press :
      (rule : Option Value) (s : Hook T)
      → Steady s
      → Idle s
      → s.alive ≡ true
      → s.armed ≡ true
      → can_play config s ≡ true
      → on_play sdk tee config client_seed rule s
        ≡ played (demo_play sdk tee config client_seed rule s.engine) (record s { busy = true })
  unfolding on_play play_on
  press rule s v idle live armed can =
      let quiet = not_shown s v (ground arith) in
      let shows = v.fresh armed live quiet in ground (arith, idle (v.armed_late armed), v.one_play)

  finish :
      (r : Result PlayRecord × Demo T) (s : Hook T)
      → ((p : PlayRecord) → r.0 ≡ ok p → r.1.plays ≡ s.engine.plays ++ p ∷ [])
      → Quiet s
      → s.alive ≡ true
      → Ended s (
          hook_run sdk tee config client_seed
            (animated ∷ [])
            (flush sdk tee config client_seed (played r (record s { busy = true }))))
  unfolding on_animated Ended
  finish (err e, d) s adds v live =
      let s1 = played (err e, d) (record s { busy = true }) in
      same_end s s1
        (hook_run sdk tee config client_seed (animated ∷ []) (flush sdk tee config client_seed s1))
        (ground (
          arith,
          flush-nobody sdk tee config client_seed s1 v.nobody,
          animated_to-none s.animation s1 v.no_animation,
        ))
        (refl, inl refl)
  finish (ok p, d) s adds v live =
      let s1 = played (ok p, d) (record s { busy = true }) in
      let s2 : Hook T = record s1 {
        animation = none;
        busy = false;
        last = some p;
        view = some (snapshot d);
        phase = settled;
      } in
      same_end s s2
        (hook_run sdk tee config client_seed (animated ∷ []) (flush sdk tee config client_seed s1))
        (ground (
          arith,
          flush-nobody sdk tee config client_seed s1 v.nobody,
          animated_to-some p s1 live,
          flush-nobody sdk tee config client_seed s2 v.nobody,
        ))
        (refl, inr (refl, refl, (p, refl, adds p refl)))

  -- On an armed and mounted demo page that offers a play, a press of play and the end of its
  -- animation leave the page not busy, and either failed or settled, with the view of the engine
  -- and, as the last record, the one that the engine added to its plays.
  pub play_pressed-Ended :
      (t : T) (es : List Event) (rule : Option Value) (s : Hook T)
      → s ≡ hook_run sdk tee config client_seed es (mounted t)
      → s.alive ≡ true
      → s.armed ≡ true
      → can_play config s ≡ true
      → Ended s (hook_run sdk tee config client_seed (play_pressed rule ∷ animated ∷ []) s)
  play_pressed-Ended t es rule s reached live armed can =
      let (v, idle) =
        reachable s (hook_run sdk tee config client_seed es (mounted t)) reached
          (hook_run-Steady sdk tee config client_seed t es) in
      let calm = not_shown s v (ground arith) in
      let nobody = idle (v.armed_late armed) in
      let done =
        finish (demo_play sdk tee config client_seed rule s.engine) s (demo_play-ok rule s.engine)
          (Steady-Quiet s v nobody (ground (arith, v.one_play))) live in
      rw (press rule s v idle live armed can) done
