-- ===== src/Web/DemoEpoch/Fresh.antt =====
-- What the page shows is what the engine holds, whatever happens on the page.
use foreseer.Base.{
  ◌≡◌, refl, sym, ap, ◌∙◌, String, false, ◌||◌, not, some, List, [], ◌∷◌, ◌++◌, arith, length, leb,
  inl, inr, Bool-cases,
}
use foreseer.Base.Exec.{Error, Result, ok, err, Result-cases}
use foreseer.Sdk.{Sdk}
use foreseer.Web.DemoTee.{ReferenceTee, DemoConfig, RevealView, Demo, open_demo, demo_reveal}
use foreseer.Web.DemoEpoch.{
  arming_from, rejected, is_settled, observer, Hook, Event, unmounted, seen, loaded, load_failed,
  play_pressed, animated, reveal_pressed, next_pressed, snapshot, mounted, revealed_to, opened_to,
  loaded_to, on_seen, on_animated, on_reveal, on_next, on_loaded, on_load_failed, handle, hook_run,
}
use foreseer.Web.DemoEpoch.Steady.{
  same_hook, Steady, busy-arming_from, players-append, Quiet, settle-Steady, Idle, Steady-Quiet,
  unmounted-Steady, mounted-Steady,
}
use foreseer.Web.DemoEpoch.Plays.{loaded_to-Steady, animated_to-Steady, on_play-Steady}
use foreseer.Web.DemoEpoch.Flush.{flush-Steady, flush-Idle}

module _ {T : Type 0} where
  on_seen-Steady : (s : Hook T) → Steady s → Steady (on_seen s)
  unfolding on_seen
  on_seen-Steady s v = elim (Bool-cases s.armed) [
    | inl armed ↦ same_hook s _ (ground arith) v
    | inr unarmed ↦
        same_hook (record s { phase = arming_from s.phase; waiting = s.waiting ++ observer ∷ [] }) _
          (ground arith)
          (record {
            one_play = omega (arith, players-append s.waiting observer, v.one_play);
            armed_late = v.armed_late;
            animates = λ h. absurd (ground (arith, v.animates h));
            still_busy = λ h a. v.still_busy (sym (busy-arming_from s.phase) ∙ h) a;
            fresh = v.fresh;
          })
  ]

  on_load_failed-Steady : (e : Error) (s : Hook T) → Steady s → Steady (on_load_failed e s)
  unfolding on_load_failed
  on_load_failed-Steady e s v = elim (Bool-cases (is_settled s.loading)) [
    | inl done ↦ same_hook s _ (ground arith) v
    | inr waits ↦
        same_hook (record s { loading = rejected e }) _ (ground arith)
          (record {
            one_play = v.one_play;
            armed_late = λ h. refl;
            animates = v.animates;
            still_busy = v.still_busy;
            fresh = v.fresh;
          })
  ]

  revealed_to-Steady :
      (r : Result RevealView × Demo T) (s : Hook T)
      → Quiet s
      → s.busy ≡ false
      → Steady (revealed_to r s)
  revealed_to-Steady (err e, d) s v b =
      settle-Steady _
        (record {
          nobody = v.nobody;
          no_animation = v.no_animation;
          armed_late = v.armed_late;
          still_busy = λ h a. ground arith;
          fresh = λ h a. refl;
        })
        b
  revealed_to-Steady (ok u, d) s v b =
      settle-Steady _
        (record {
          nobody = v.nobody;
          no_animation = v.no_animation;
          armed_late = v.armed_late;
          still_busy = λ h a. ground arith;
          fresh = λ h a. refl;
        })
        b

  opened_to-Steady :
      (r : Result (Unit {0}) × Demo T) (s : Hook T)
      → ((e : Error) → r.0 ≡ err e → snapshot r.1 ≡ snapshot s.engine)
      → Quiet s
      → s.busy ≡ false
      → Steady (opened_to r s)
  opened_to-Steady (err e, d) s keeps v b =
      settle-Steady _
        (record {
          nobody = v.nobody;
          no_animation = v.no_animation;
          armed_late = v.armed_late;
          still_busy = λ h a. ground arith;
          fresh = λ h a. v.fresh h a ∙ ap some (sym (keeps e refl));
        })
        b
  opened_to-Steady (ok u, d) s keeps v b =
      settle-Steady _
        (record {
          nobody = v.nobody;
          no_animation = v.no_animation;
          armed_late = v.armed_late;
          still_busy = λ h a. ground arith;
          fresh = λ h a. refl;
        })
        b

module _ {T : Type 0} (sdk : Sdk) (tee : ReferenceTee T) (config : DemoConfig)
    (client_seed : String) where
  open_demo-err-snapshot :
      (d : Demo T) (e : Error)
      → (open_demo sdk tee config client_seed d).0 ≡ err e
      → snapshot (open_demo sdk tee config client_seed d).1 ≡ snapshot d
  unfolding open_demo
  open_demo-err-snapshot d e h = elim (Bool-cases d.is_open) [
    | inl o ↦ absurd (ground arith)
    | inr c ↦ elim (Result-cases (tee.open_epoch d.tee).0) [
      | inl (e', q) ↦ ground arith
      | inr (started, q) ↦ absurd (ground arith)
    ]
  ]

  on_reveal-Steady :
      (s : Hook T) → Steady s → Idle s → Steady (on_reveal sdk tee config client_seed s)
  unfolding on_reveal
  on_reveal-Steady s v idle = elim (Bool-cases (s.busy || not s.armed)) [
    | inl b ↦ same_hook s _ (ground arith) v
    | inr c ↦ elim (Bool-cases (not s.engine.is_open || not (leb 1 (length s.engine.plays)))) [
      | inl refused ↦ same_hook s _ (ground arith) v
      | inr fits ↦
          same_hook (revealed_to (demo_reveal sdk tee config client_seed s.engine) s) _
            (ground arith)
            (revealed_to-Steady _ s
              (Steady-Quiet s v (idle (v.armed_late (ground arith))) (ground arith)) (ground arith))
    ]
  ]

  on_next-Steady : (s : Hook T) → Steady s → Idle s → Steady (on_next sdk tee config client_seed s)
  unfolding on_next
  on_next-Steady s v idle = elim (Bool-cases (s.busy || not s.armed)) [
    | inl b ↦ same_hook s _ (ground arith) v
    | inr c ↦
        same_hook (opened_to (open_demo sdk tee config client_seed s.engine) s) _ (ground arith) (
          opened_to-Steady _ s (open_demo-err-snapshot s.engine)
            (Steady-Quiet s v (idle (v.armed_late (ground arith))) (ground arith)) (ground arith))
  ]

  on_loaded-Steady : (s : Hook T) → Steady s → Steady (on_loaded sdk tee config client_seed s)
  unfolding on_loaded
  on_loaded-Steady s v = elim (Bool-cases (is_settled s.loading)) [
    | inl done ↦ same_hook s _ (ground arith) v
    | inr waits ↦
        same_hook (loaded_to (open_demo sdk tee config client_seed s.engine) s) _ (ground arith)
          (loaded_to-Steady _ s v waits)
  ]

  handle-Steady :
      (e : Event) (s : Hook T) → Steady s → Idle s → Steady (handle sdk tee config client_seed e s)
  unfolding on_animated
  handle-Steady unmounted s v idle = unmounted-Steady s v
  handle-Steady seen s v idle = on_seen-Steady s v
  handle-Steady loaded s v idle = on_loaded-Steady s v
  handle-Steady (load_failed e) s v idle = on_load_failed-Steady e s v
  handle-Steady (play_pressed rule) s v idle =
      on_play-Steady sdk tee config client_seed rule s v idle
  handle-Steady animated s v idle = animated_to-Steady s.animation s refl v
  handle-Steady reveal_pressed s v idle = on_reveal-Steady s v idle
  handle-Steady next_pressed s v idle = on_next-Steady s v idle

  hook_run-Steady_of :
      (es : List Event) (s : Hook T)
      → Steady s
      → Idle s
      → Steady (hook_run sdk tee config client_seed es s)
        × Idle (hook_run sdk tee config client_seed es s)
  hook_run-Steady_of [] s v idle = (v, idle)
  hook_run-Steady_of (e ∷ es) s v idle =
      hook_run-Steady_of es _ (flush-Steady sdk tee config client_seed _ (handle-Steady e s v idle))
        (flush-Idle sdk tee config client_seed _)

  -- After any events on a demo page: the busy flag counts the one play under way, only a settled
  -- promise arms the hook and nobody waits for it then, an animation runs in the phase of playing,
  -- a mounted page is in a busy phase only while one runs, and else an armed and mounted page
  -- shows the snapshot of the engine.
  pub hook_run-Steady :
      (t : T) (es : List Event)
      → Steady (hook_run sdk tee config client_seed es (mounted t))
        × Idle (hook_run sdk tee config client_seed es (mounted t))
  hook_run-Steady t es =
      hook_run-Steady_of es (mounted t) (mounted-Steady t) (λ h. absurd (ground arith))
