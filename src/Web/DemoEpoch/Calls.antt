-- ===== src/Web/DemoEpoch/Calls.antt =====
-- The hook refines the demo engine: whatever happens on the page, the engine sees its own calls only.
use foreseer.Base.{
  ◌≡◌, refl, sym, ap, ◌∙◌, String, Bool, true, ◌||◌, ◌&&◌, not, Option, none, some, List, [], ◌∷◌,
  ◌++◌, arith, length, leb, inl, inr, Bool-cases, ◌≤◌, ◌<◌, ◌⊎◌, false, subst,
}
use foreseer.Base.Exec.{Result, ok, err}
use foreseer.Json.{Value}
use foreseer.Sdk.{Sdk}
use foreseer.Web.DemoTee.{
  ReferenceTee, DemoConfig, PlayRecord, RevealView, Demo, open_demo, demo_play, demo_reveal, built,
  DemoCall, next_epoch, play_once, reveal_all, demo_run, demo_step,
}
use foreseer.Web.DemoEpoch.{
  Loading, pending, fulfilled, rejected, Waiter, observer, player, Hook, Event, unmounted, seen,
  loaded, load_failed, play_pressed, animated, reveal_pressed, next_pressed, mounted, resume_arm,
  resume_arms, played, revealed_to, opened_to, loaded_to, animated_to, is_settled, play_on,
  play_all, flush, on_seen, on_play, on_animated, on_reveal, on_next, on_loaded, on_load_failed,
  handle, hook_run,
}
use foreseer.Web.DemoEpoch.Steady.{shown}
use foreseer.Web.DemoEpoch.Quiet.{event-still}

module _ {T : Type 0} where
  resume_arm-engine : (l : Loading) (s : Hook T) → (resume_arm l s).1.engine ≡ s.engine
  resume_arm-engine pending s = refl
  resume_arm-engine fulfilled s = ground arith
  resume_arm-engine (rejected e) s = ground arith

  resume_arms-engine : (ws : List Waiter) (s : Hook T) → (resume_arms ws s).1.engine ≡ s.engine
  resume_arms-engine [] s = refl
  resume_arms-engine (observer ∷ ws) s =
      resume_arms-engine ws (resume_arm s.loading s).1 ∙ resume_arm-engine s.loading s
  resume_arms-engine (player rule ∷ ws) s =
      resume_arms-engine ws (resume_arm s.loading s).1 ∙ resume_arm-engine s.loading s

module _ {T : Type 0} (sdk : Sdk) (tee : ReferenceTee T) (config : DemoConfig)
    (client_seed : String) where
  -- A play comes to an open epoch with room, and a reveal to an open epoch with a play.
  abbrev pub Fits : DemoCall → Demo T → Type 0
  Fits next_epoch d = Unit {0}
  Fits (play_once rule) d = (d.is_open ≡ true) × (length d.plays < config.max_plays)
  Fits reveal_all d = (d.is_open ≡ true) × (1 ≤ length d.plays)

  -- Each call fits the engine that the calls before it leave.
  abbrev pub AllFit : List DemoCall → Demo T → Type 0
  AllFit [] d = Unit {0}
  AllFit (c ∷ cs) d = Fits c d × AllFit cs (demo_step sdk tee config client_seed c d)

  -- The engine `d` becomes `d'` by calls that fit.
  abbrev pub Driven : Demo T → Demo T → Type 0
  Driven d d' = (cs : List DemoCall) × AllFit cs d × (d' ≡ demo_run sdk tee config client_seed cs d)

  append-AllFit :
      (cs es : List DemoCall) (d : Demo T)
      → AllFit cs d
      → AllFit es (demo_run sdk tee config client_seed cs d)
      → AllFit (cs ++ es) d
  append-AllFit [] es d f g = g
  append-AllFit (c ∷ cs) es d f g = (f.0, append-AllFit cs es _ f.1 g)

  run_append :
      (cs es : List DemoCall) (d : Demo T)
      → demo_run sdk tee config client_seed (cs ++ es) d
        ≡ demo_run sdk tee config client_seed es (demo_run sdk tee config client_seed cs d)
  run_append [] es d = refl
  run_append (c ∷ cs) es d = run_append cs es _

  then-Driven : (d d' d'' : Demo T) → Driven d d' → Driven d' d'' → Driven d d''
  then-Driven d d' d'' (cs, f, p) (es, g, q) = (
    cs ++ es,
    append-AllFit cs es d f (subst (AllFit es) p g),
    q ∙ ap (demo_run sdk tee config client_seed es) p ∙ sym (run_append cs es d),
  )

  still : (d d' : Demo T) → d' ≡ d → Driven d d'
  still d d' p = ([], tt, p)

  played-engine : (r : Result PlayRecord × Demo T) (s : Hook T) → (played r s).engine ≡ r.1
  played-engine (err e, d) s = refl
  played-engine (ok p, d) s = refl

  revealed_to-engine :
      (r : Result RevealView × Demo T) (s : Hook T) → (revealed_to r s).engine ≡ r.1
  revealed_to-engine (err e, d) s = refl
  revealed_to-engine (ok p, d) s = refl

  opened_to-engine : (r : Result (Unit {0}) × Demo T) (s : Hook T) → (opened_to r s).engine ≡ r.1
  opened_to-engine (err e, d) s = refl
  opened_to-engine (ok p, d) s = refl

  loaded_to-engine : (r : Result (Unit {0}) × Demo T) (s : Hook T) → (loaded_to r s).engine ≡ r.1
  loaded_to-engine (err e, d) s = refl
  loaded_to-engine (ok p, d) s = refl

  animated_to-engine : (p : Option PlayRecord) (s : Hook T) → (animated_to p s).engine ≡ s.engine
  animated_to-engine none s = refl
  animated_to-engine (some p) s = ground arith

  play_on-Driven :
      (rule : Option Value) (got : Bool) (s : Hook T)
      → Driven s.engine (play_on sdk tee config client_seed rule got s).engine
  unfolding play_on
  play_on-Driven rule got s = elim (Bool-cases (got && s.alive)) [
    | inr idle ↦ still _ _ (ground arith)
    | inl live ↦
        elim (Bool-cases (not s.engine.is_open || leb config.max_plays (length s.engine.plays))) [
          | inl refused ↦ still _ _ (ground arith)
          | inr fits ↦ (
            play_once rule ∷ [],
            ((ground arith, ground arith), tt),
            ground (arith, played-engine (demo_play sdk tee config client_seed rule s.engine) s),
          )
        ]
  ]

  play_all-Driven :
      (ps : List (Option Value × Bool)) (s : Hook T)
      → Driven s.engine (play_all sdk tee config client_seed ps s).engine
  play_all-Driven [] s = still _ _ refl
  play_all-Driven ((rule, got) ∷ ps) s =
      then-Driven s.engine _ _ (play_on-Driven rule got s) (play_all-Driven ps _)

  reached : (d d' d'' : Demo T) → d'' ≡ d' → Driven d d' → Driven d d''
  reached d d' d'' p v = rw p v

  flush-Driven : (s : Hook T) → Driven s.engine (flush sdk tee config client_seed s).engine
  unfolding flush
  flush-Driven s =
      let r = resume_arms s.waiting (record s { waiting = [] }) in
      elim (Bool-cases (is_settled s.loading)) [
        | inr waits ↦ still _ _ (ground arith)
        | inl done ↦
            reached s.engine (play_all sdk tee config client_seed r.0 r.1).engine _ (ground arith) (
              then-Driven s.engine r.1.engine _
                (still _ _ (resume_arms-engine s.waiting (record s { waiting = [] })))
                (play_all-Driven r.0 r.1))
      ]

  on_play-Driven :
      (rule : Option Value) (s : Hook T)
      → Driven s.engine (on_play sdk tee config client_seed rule s).engine
  unfolding on_play
  on_play-Driven rule s = elim (Bool-cases s.busy) [
    | inl b ↦ still _ _ (ground arith)
    | inr c ↦ elim (Bool-cases s.armed) [
      | inr cold ↦ still _ _ (ground arith)
      | inl armed ↦
          reached s.engine
            (play_on sdk tee config client_seed rule true (record s { busy = true })).engine _
            (ground arith) (play_on-Driven rule true (record s { busy = true }))
    ]
  ]

  on_reveal-Driven : (s : Hook T) → Driven s.engine (on_reveal sdk tee config client_seed s).engine
  unfolding on_reveal
  on_reveal-Driven s = elim (Bool-cases (s.busy || not s.armed)) [
    | inl b ↦ still _ _ (ground arith)
    | inr c ↦ elim (Bool-cases (not s.engine.is_open || not (leb 1 (length s.engine.plays)))) [
      | inl refused ↦ still _ _ (ground arith)
      | inr fits ↦ (
        reveal_all ∷ [],
        ((ground arith, ground arith), tt),
        ground (arith, revealed_to-engine (demo_reveal sdk tee config client_seed s.engine) s),
      )
    ]
  ]

  on_next-Driven : (s : Hook T) → Driven s.engine (on_next sdk tee config client_seed s).engine
  unfolding on_next
  on_next-Driven s = elim (Bool-cases (s.busy || not s.armed)) [
    | inl b ↦ still _ _ (ground arith)
    | inr c ↦ (
      next_epoch ∷ [],
      (tt, tt),
      ground (arith, opened_to-engine (open_demo sdk tee config client_seed s.engine) s),
    )
  ]

  on_loaded-Driven : (s : Hook T) → Driven s.engine (on_loaded sdk tee config client_seed s).engine
  unfolding on_loaded
  on_loaded-Driven s = elim (Bool-cases (is_settled s.loading)) [
    | inl done ↦ still _ _ (ground arith)
    | inr waits ↦ (
      next_epoch ∷ [],
      (tt, tt),
      ground (arith, loaded_to-engine (open_demo sdk tee config client_seed s.engine) s),
    )
  ]

  handle-Driven :
      (e : Event) (s : Hook T) → Driven s.engine (handle sdk tee config client_seed e s).engine
  unfolding on_seen on_load_failed on_animated
  handle-Driven unmounted s = still _ _ refl
  handle-Driven seen s = still _ _ (ground arith)
  handle-Driven loaded s = on_loaded-Driven s
  handle-Driven (load_failed e) s = still _ _ (ground arith)
  handle-Driven (play_pressed rule) s = on_play-Driven rule s
  handle-Driven animated s = still _ _ (animated_to-engine s.animation s)
  handle-Driven reveal_pressed s = on_reveal-Driven s
  handle-Driven next_pressed s = on_next-Driven s

  hook_run-Driven :
      (es : List Event) (s : Hook T)
      → Driven s.engine (hook_run sdk tee config client_seed es s).engine
  hook_run-Driven [] s = still _ _ refl
  hook_run-Driven (e ∷ es) s =
      let s1 = handle sdk tee config client_seed e s in
      then-Driven s.engine s1.engine _ (handle-Driven e s)
        (then-Driven s1.engine _ _ (flush-Driven s1) (hook_run-Driven es _))

  -- After any events on a demo page, the engine behind it is in a state that a sequence of calls
  -- of the engine reaches from the built one, in which each play comes to an open epoch with room
  -- and each reveal to an open epoch with a play; and while an animation runs, the next event,
  -- whatever it is, leaves the engine as it is.
  pub hook_run_refines :
      (t : T) (es : List Event) (e : Event)
      → Driven (built t) (hook_run sdk tee config client_seed es (mounted t)).engine
        × ((shown (hook_run sdk tee config client_seed es (mounted t)).animation ≡ false)
            ⊎ ((hook_run sdk tee config client_seed
                  (e ∷ [])
                  (hook_run sdk tee config client_seed es (mounted t))).engine
                ≡ (hook_run sdk tee config client_seed es (mounted t)).engine))
  hook_run_refines t es e =
      (hook_run-Driven es (mounted t), event-still sdk tee config client_seed t es e)
