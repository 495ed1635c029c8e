-- ===== src/Web/DemoEpoch/Quiet.antt =====
-- While a play is under way, no event of the page reaches the engine.
use foreseer.Base.{
  ◌≡◌, refl, ◌∙◌, String, true, false, Option, none, some, List, [], ◌∷◌, arith, ◌⊎◌, inl, inr,
  Bool-cases,
}
use foreseer.Sdk.{Sdk}
use foreseer.Web.DemoTee.{ReferenceTee, DemoConfig, PlayRecord}
use foreseer.Web.DemoEpoch.{
  Hook, Event, unmounted, seen, loaded, load_failed, play_pressed, animated, reveal_pressed,
  next_pressed, mounted, animated_to, is_settled, flush, on_seen, on_play, on_animated, on_reveal,
  on_next, on_loaded, on_load_failed, handle, hook_run,
}
use foreseer.Web.DemoEpoch.Steady.{shown}
use foreseer.Web.DemoEpoch.Fresh.{hook_run-Steady}

module _ {T : Type 0} (sdk : Sdk) (tee : ReferenceTee T) (config : DemoConfig)
    (client_seed : String) where
  abbrev OnlyShows : Hook T → Hook T → Type 0
  OnlyShows s s' = (s'.engine ≡ s.engine) × (s'.waiting ≡ s.waiting)

  only_shows : (s s' : Hook T) → s' ≡ s → OnlyShows s s'
  only_shows s s' p = rw p (refl, refl)

  animated_to-OnlyShows : (p : Option PlayRecord) (s : Hook T) → OnlyShows s (animated_to p s)
  animated_to-OnlyShows none s = (refl, refl)
  animated_to-OnlyShows (some p) s = (ground arith, ground arith)

  handle-OnlyShows :
      (e : Event) (s : Hook T)
      → s.busy ≡ true
      → s.armed ≡ true
      → is_settled s.loading ≡ true
      → OnlyShows s (handle sdk tee config client_seed e s)
  unfolding on_seen on_load_failed on_animated on_play on_reveal on_next on_loaded
  handle-OnlyShows unmounted s b a l = (refl, refl)
  handle-OnlyShows seen s b a l = only_shows s (on_seen s) (ground arith)
  handle-OnlyShows loaded s b a l =
      only_shows s (on_loaded sdk tee config client_seed s) (ground arith)
  handle-OnlyShows (load_failed e) s b a l = only_shows s (on_load_failed e s) (ground arith)
  handle-OnlyShows (play_pressed rule) s b a l =
      only_shows s (on_play sdk tee config client_seed rule s) (ground arith)
  handle-OnlyShows animated s b a l = animated_to-OnlyShows s.animation s
  handle-OnlyShows reveal_pressed s b a l =
      only_shows s (on_reveal sdk tee config client_seed s) (ground arith)
  handle-OnlyShows next_pressed s b a l =
      only_shows s (on_next sdk tee config client_seed s) (ground arith)

  flush-still :
      (s : Hook T) → s.waiting ≡ [] → (flush sdk tee config client_seed s).engine ≡ s.engine
  unfolding flush
  flush-still s w = elim (Bool-cases (is_settled s.loading)) [
    | inl y ↦ rw w (ground arith)
    | inr n ↦ ground arith
  ]

  pub event-still :
      (t : T) (es : List Event) (e : Event)
      → (shown (hook_run sdk tee config client_seed es (mounted t)).animation ≡ false)
        ⊎ ((hook_run sdk tee config client_seed
              (e ∷ [])
              (hook_run sdk tee config client_seed es (mounted t))).engine
            ≡ (hook_run sdk tee config client_seed es (mounted t)).engine)
  event-still t es e =
      let s = hook_run sdk tee config client_seed es (mounted t) in
      let (v, idle) = hook_run-Steady sdk tee config client_seed t es in
      elim (Bool-cases (shown s.animation)) [
        | inr rests ↦ inl rests
        | inl runs ↦
            let (armed, waiting, phase) = v.animates runs in
            let busy : s.busy ≡ true = ground (arith, v.one_play) in
            let (same, waits) = handle-OnlyShows e s busy armed (v.armed_late armed) in
            inr (flush-still (handle sdk tee config client_seed e s) (waits ∙ waiting) ∙ same)
      ]
