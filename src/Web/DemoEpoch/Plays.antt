-- ===== src/Web/DemoEpoch/Plays.antt =====
-- A press of play keeps the hook steady, on each of its ways out.
use foreseer.Base.{
  ◌≡◌, refl, sym, ap, ◌∙◌, String, Bool, true, false, ◌||◌, ◌&&◌, not, Option, none, some, List, [],
  ◌∷◌, ◌++◌, arith, length, leb, inl, inr, Bool-cases,
}
use foreseer.Base.Exec.{Error, Result, ok, err, Result-cases}
use foreseer.Json.{Value}
use foreseer.Sdk.{Sdk}
use foreseer.Web.DemoTee.{ReferenceTee, DemoConfig, PlayRecord, Demo, rule_or, demo_play}
use foreseer.Web.DemoEpoch.{
  settled, arming_from, is_settled, player, Hook, snapshot, played, loaded_to, animated_to, play_on,
  play_all, on_play,
}
use foreseer.Web.DemoEpoch.Steady.{
  same_hook, Steady, busy-arming_from, players-append, Quiet, settle-Steady, shown,
}

module _ {T : Type 0} where
  pub loaded_to-Steady :
      (r : Result (Unit {0}) × Demo T) (s : Hook T)
      → Steady s
      → is_settled s.loading ≡ false
      → Steady (loaded_to r s)
  loaded_to-Steady (err e, d) s v waits = record {
    one_play = v.one_play;
    armed_late = λ h. refl;
    animates = v.animates;
    still_busy = v.still_busy;
    fresh = λ h a n. absurd (ground (arith, v.armed_late h));
  }
  loaded_to-Steady (ok u, d) s v waits = record {
    one_play = v.one_play;
    armed_late = λ h. refl;
    animates = v.animates;
    still_busy = v.still_busy;
    fresh = λ h a n. absurd (ground (arith, v.armed_late h));
  }

  pub animated_to-Steady :
      (p : Option PlayRecord) (s : Hook T) → s.animation ≡ p → Steady s → Steady (animated_to p s)
  animated_to-Steady none s q v = v
  animated_to-Steady (some p) s q v =
      let runs = v.animates (ground arith) in
      elim (Bool-cases s.alive) [
        | inl live ↦
            same_hook
              (record s {
                animation = none;
                busy = false;
                last = some p;
                view = some (snapshot s.engine);
                phase = settled;
              })
              _ (ground arith)
              (record {
                one_play = ground (arith, runs);
                armed_late = v.armed_late;
                animates = λ h. ground arith;
                still_busy = λ h a. ground arith;
                fresh = λ h a n. refl;
              })
        | inr dead ↦
            same_hook (record s { animation = none; busy = false }) _ (ground arith)
              (record {
                one_play = ground (arith, runs);
                armed_late = v.armed_late;
                animates = λ h. ground arith;
                still_busy = λ h a. ground arith;
                fresh = λ h a n. ground arith;
              })
      ]

  played-Steady :
      (r : Result PlayRecord × Demo T) (s : Hook T)
      → ((e : Error) → r.0 ≡ err e → snapshot r.1 ≡ snapshot s.engine)
      → Quiet s
      → s.busy ≡ true
      → s.armed ≡ true
      → Steady (played r s)
  played-Steady (err e, d) s keeps v b armed = record {
    one_play = ground (arith, v.nobody, v.no_animation);
    armed_late = v.armed_late;
    animates = λ h. ground (arith, v.no_animation);
    still_busy = λ h a. ground arith;
    fresh = λ h a n. v.fresh h a ∙ ap some (sym (keeps e refl));
  }
  played-Steady (ok p, d) s keeps v b armed = record {
    one_play = ground (arith, v.nobody);
    armed_late = v.armed_late;
    animates = λ h. (armed, v.nobody, refl);
    still_busy = λ h a. refl;
    fresh = λ h a n. ground arith;
  }

  played-waiting : (r : Result PlayRecord × Demo T) (s : Hook T) → (played r s).waiting ≡ s.waiting
  played-waiting (err e, d) s = refl
  played-waiting (ok p, d) s = refl

module _ {T : Type 0} (sdk : Sdk) (tee : ReferenceTee T) (config : DemoConfig)
    (client_seed : String) where
  demo_play-err-snapshot :
      (rule : Option Value) (d : Demo T) (e : Error)
      → (demo_play sdk tee config client_seed rule d).0 ≡ err e
      → snapshot (demo_play sdk tee config client_seed rule d).1 ≡ snapshot d
  unfolding demo_play
  demo_play-err-snapshot rule d e h = elim (Bool-cases d.is_open) [
    | inr c ↦ ground arith
    | inl o ↦ elim (Bool-cases (leb config.max_plays (length d.plays))) [
      | inl f ↦ ground arith
      | inr room ↦ elim (Result-cases (tee.play client_seed (rule_or rule config.rule) d.tee).0) [
        | inl (e', q) ↦ ground arith
        | inr (bet, q) ↦ absurd (ground arith)
      ]
    ]
  ]

  pub play_on-Steady :
      (rule : Option Value) (got : Bool) (s : Hook T)
      → Quiet s
      → s.busy ≡ true
      → (got ≡ true → s.armed ≡ true)
      → Steady (play_on sdk tee config client_seed rule got s)
  unfolding play_on
  play_on-Steady rule got s v b has = elim (Bool-cases (got && s.alive)) [
    | inr idle ↦
        same_hook (record s { busy = false }) _ (ground arith)
          (settle-Steady (record s { busy = false })
            (record {
              nobody = v.nobody;
              no_animation = v.no_animation;
              armed_late = v.armed_late;
              still_busy = v.still_busy;
              fresh = v.fresh;
            })
            refl)
    | inl live ↦
        elim (Bool-cases (not s.engine.is_open || leb config.max_plays (length s.engine.plays))) [
          | inl refused ↦
              let s' : Hook T = record s { busy = false; view = some (snapshot s.engine) } in
              same_hook s' _ (ground arith) (
                settle-Steady s'
                  (record {
                    nobody = v.nobody;
                    no_animation = v.no_animation;
                    armed_late = v.armed_late;
                    still_busy = v.still_busy;
                    fresh = λ h a. refl;
                  })
                  refl)
          | inr fits ↦
              same_hook (played (demo_play sdk tee config client_seed rule s.engine) s) _
                (ground arith)
                (played-Steady _ s (demo_play-err-snapshot rule s.engine) v b (has (ground arith)))
        ]
  ]

  pub on_play-Steady :
      (rule : Option Value) (s : Hook T)
      → Steady s
      → (is_settled s.loading ≡ true → s.waiting ≡ [])
      → Steady (on_play sdk tee config client_seed rule s)
  unfolding on_play
  on_play-Steady rule s v idle = elim (Bool-cases s.busy) [
    | inl b ↦ same_hook s _ (ground arith) v
    | inr c ↦
        let none_runs : shown s.animation ≡ false = ground (arith, v.one_play) in
        elim (Bool-cases s.armed) [
          | inl armed ↦
              let s1 : Hook T = record s { busy = true } in
              same_hook (play_on sdk tee config client_seed rule true s1) _ (ground arith) (
                play_on-Steady rule true s1
                  (record {
                    nobody = idle (v.armed_late armed);
                    no_animation = none_runs;
                    armed_late = v.armed_late;
                    still_busy = v.still_busy;
                    fresh = λ h a. v.fresh h a none_runs;
                  })
                  refl (λ h. armed))
          | inr unarmed ↦
              same_hook
                (record s {
                  busy = true;
                  phase = arming_from s.phase;
                  waiting = s.waiting ++ player rule ∷ [];
                })
                _ (ground arith)
                (record {
                  one_play = ground (arith, players-append s.waiting (player rule), v.one_play);
                  armed_late = v.armed_late;
                  animates = λ h. absurd (ground arith);
                  still_busy = λ h a. v.still_busy (sym (busy-arming_from s.phase) ∙ h) a;
                  fresh = v.fresh;
                })
        ]
  ]

  play_on-waiting :
      (rule : Option Value) (got : Bool) (s : Hook T)
      → (play_on sdk tee config client_seed rule got s).waiting ≡ s.waiting
  unfolding play_on
  play_on-waiting rule got s = elim (Bool-cases (got && s.alive)) [
    | inr idle ↦ ground arith
    | inl live ↦
        elim (Bool-cases (not s.engine.is_open || leb config.max_plays (length s.engine.plays))) [
          | inl refused ↦ ground arith
          | inr fits ↦
              ground (arith, played-waiting (demo_play sdk tee config client_seed rule s.engine) s)
        ]
  ]

  pub play_all-waiting :
      (ps : List (Option Value × Bool)) (s : Hook T)
      → (play_all sdk tee config client_seed ps s).waiting ≡ s.waiting
  play_all-waiting [] s = refl
  play_all-waiting ((rule, got) ∷ ps) s = play_all-waiting ps _ ∙ play_on-waiting rule got s
