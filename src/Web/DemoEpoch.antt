-- ===== src/Web/DemoEpoch.antt =====
-- web/lib/use-demo-epoch.ts: the hook useDemoEpoch. A handler runs to its first await; what waits is
-- kept in the state (the calls of `arm`, and the animation), and `Event` says what may happen next.
mod Data
pub mod Calls
pub mod Steady
pub mod Plays
pub mod Flush
pub mod Fresh
pub mod Press
pub mod Quiet
pub use Data.*
use foreseer.Base.{
  String, Bool, true, false, ◌&&◌, ◌||◌, not, Option, none, some, List, [], ◌∷◌, ◌++◌, length, leb,
  if◌then◌else◌,
}
use foreseer.Base.Exec.{Error, Result, ok, err}
use foreseer.Json.{Value}
use foreseer.Sdk.{Sdk}
use foreseer.Web.DemoTee.{
  ReferenceTee, DemoConfig, PlayRecord, RevealView, Demo, open_demo, demo_play, demo_reveal, built,
}

module _ {T : Type 0} where
  abbrev pub snapshot : Demo T → EpochView
  snapshot d = record {
    epoch_id = d.epoch_id;
    seed_commit = d.seed_commit;
    is_open = d.is_open;
    plays = d.plays;
    reveal = d.reveal;
  }

  -- The state that the hook is mounted with.
  abbrev pub mounted : T → Hook T
  mounted t = record {
    loading = pending;
    engine = built t;
    armed = false;
    alive = true;
    busy = false;
    waiting = [];
    animation = none;
    phase = cold;
    view = none;
    last = none;
    error = none;
  }

  -- `arm` after its await: whether it returns the handle.
  abbrev pub resume_arm : Loading → Hook T → Bool × Hook T
  resume_arm pending s = (false, s)
  resume_arm fulfilled s =
      if s.alive
      then (
        true,
        record s { armed = true; view = some (snapshot s.engine); phase = ready_from s.phase },
      )
      else (false, s)
  resume_arm (rejected e) s =
      if s.alive then (false, record s { error = some e; phase = failed }) else (false, s)

  -- The calls of `arm` go on in the order that they came, and the presses of play after them.
  abbrev pub resume_arms : List Waiter → Hook T → List (Option Value × Bool) × Hook T
  resume_arms [] s = ([], s)
  resume_arms (observer ∷ ws) s = resume_arms ws (resume_arm s.loading s).1
  resume_arms (player rule ∷ ws) s =
      let (got, s1) = resume_arm s.loading s in
      let (plays, s2) = resume_arms ws s1 in ((rule, got) ∷ plays, s2)

-- The hook's last lines: what it returns beside the state and the handlers.
abbrev pub plays_of : Option EpochView → List PlayRecord
plays_of none = []
plays_of (some v) = v.plays

abbrev pub open_of : Option EpochView → Bool
open_of none = true
open_of (some v) = v.is_open

abbrev pub closed_of : Option EpochView → Bool
closed_of none = false
closed_of (some v) = not v.is_open

module _ {T : Type 0} where
  abbrev pub can_play : DemoConfig → Hook T → Bool
  can_play config s =
      open_of s.view
      && not (busy_phase s.phase)
      && not (leb config.max_plays (length (plays_of s.view)))

  abbrev pub can_reveal : Hook T → Bool
  can_reveal s = open_of s.view && not (busy_phase s.phase) && leb 1 (length (plays_of s.view))

  abbrev pub played : Result PlayRecord × Demo T → Hook T → Hook T
  played (err e, d) s = record s { engine = d; busy = false; error = some e; phase = failed }
  played (ok p, d) s = record s { engine = d; phase = playing; last = none; animation = some p }

  -- `arm` before its await, called by the observer, whose disconnect leaves one call.
  unfoldable pub on_seen : Hook T → Hook T
  on_seen s =
      if s.armed
      then s
      else record s { phase = arming_from s.phase; waiting = s.waiting ++ observer ∷ [] }

  -- `play` after the await of the animation, which may have been cancelled.
  abbrev pub animated_to : Option PlayRecord → Hook T → Hook T
  animated_to none s = s
  animated_to (some p) s =
      let s1 : Hook T = record s { animation = none; busy = false } in
      if s.alive
      then record s1 { last = some p; view = some (snapshot s.engine); phase = settled }
      else s1

  unfoldable pub on_animated : Hook T → Hook T
  on_animated s = animated_to s.animation s

  abbrev pub revealed_to : Result RevealView × Demo T → Hook T → Hook T
  revealed_to (err e, d) s = record s {
    engine = d;
    view = some (snapshot d);
    error = some e;
    phase = failed;
  }
  revealed_to (ok r, d) s = record s { engine = d; view = some (snapshot d); phase = revealed }

  abbrev pub opened_to : Result (Unit {0}) × Demo T → Hook T → Hook T
  opened_to (err e, d) s = record s { engine = d; error = some e; phase = failed }
  opened_to (ok u, d) s = record s {
    engine = d;
    view = some (snapshot d);
    last = none;
    error = none;
    phase = ready;
  }

  -- `build` ends with its first openEpoch, which may throw.
  abbrev pub loaded_to : Result (Unit {0}) × Demo T → Hook T → Hook T
  loaded_to (err e, d) s = record s { engine = d; loading = rejected e }
  loaded_to (ok u, d) s = record s { engine = d; loading = fulfilled }

  unfoldable pub on_load_failed : Error → Hook T → Hook T
  on_load_failed e s = if is_settled s.loading then s else record s { loading = rejected e }

module _ {T : Type 0} (sdk : Sdk) (tee : ReferenceTee T) (config : DemoConfig)
    (client_seed : String) where
  -- `play` from the handle on; `got` says whether there is one.
  unfoldable pub play_on : Option Value → Bool → Hook T → Hook T
  play_on rule got s =
      if got && s.alive
      then if not s.engine.is_open || leb config.max_plays (length s.engine.plays)
        then record s { busy = false; view = some (snapshot s.engine) }
        else played (demo_play sdk tee config client_seed rule s.engine) s
      else record s { busy = false }

  abbrev pub play_all : List (Option Value × Bool) → Hook T → Hook T
  play_all [] s = s
  play_all ((rule, got) ∷ ps) s = play_all ps (play_on rule got s)

  -- The promise is settled: what awaits it runs before the next event.
  unfoldable pub flush : Hook T → Hook T
  flush s =
      let (plays, s') = resume_arms s.waiting (record s { waiting = [] }) in
      if is_settled s.loading then play_all plays s' else s

  unfoldable pub on_play : Option Value → Hook T → Hook T
  on_play rule s =
      if s.busy
      then s
      else if s.armed
      then play_on rule true (record s { busy = true })
      else record s {
        busy = true;
        phase = arming_from s.phase;
        waiting = s.waiting ++ player rule ∷ [];
      }

  -- Nothing can come between "revealing" and the phase after it.
  unfoldable pub on_reveal : Hook T → Hook T
  on_reveal s =
      if s.busy || not s.armed
      then s
      else if not s.engine.is_open || not (leb 1 (length s.engine.plays))
      then s
      else revealed_to (demo_reveal sdk tee config client_seed s.engine) s

  unfoldable pub on_next : Hook T → Hook T
  on_next s =
      if s.busy || not s.armed
      then s
      else opened_to (open_demo sdk tee config client_seed s.engine) s

  unfoldable pub on_loaded : Hook T → Hook T
  on_loaded s =
      if is_settled s.loading
      then s
      else loaded_to (open_demo sdk tee config client_seed s.engine) s

  abbrev pub handle : Event → Hook T → Hook T
  handle unmounted s = record s { alive = false }
  handle seen s = on_seen s
  handle loaded s = on_loaded s
  handle (load_failed e) s = on_load_failed e s
  handle (play_pressed rule) s = on_play rule s
  handle animated s = on_animated s
  handle reveal_pressed s = on_reveal s
  handle next_pressed s = on_next s

  abbrev pub hook_run : List Event → Hook T → Hook T
  hook_run [] s = s
  hook_run (e ∷ es) s = hook_run es (flush (handle e s))
