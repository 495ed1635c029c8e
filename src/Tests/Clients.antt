-- ===== src/Tests/Clients.antt =====
-- The theorems about the demo pages and the scripts beside the server, at concrete runs.
use foreseer.Base.{
  ℕ, ◌+◌, ◌/◌, ◌^◌, ◌<◌, ◌≡◌, refl, String, true, false, none, some, List, [], ◌∷◌, arith, any,
  ◌==◌, nat_eq, ◌⊎◌,
}
use foreseer.Base.Int.{pos}
use foreseer.Base.Exec.{ok}
use foreseer.Sdk.{Bytes}
use foreseer.Sdk.Toy.{toy}
use foreseer.Web.DemoTee.{built, open_demo}
use foreseer.Web.DemoEpoch.{
  Event, seen, loaded, play_pressed, animated, reveal_pressed, next_pressed, mounted, hook_run,
  flush, on_seen, on_loaded,
}
use foreseer.Web.DemoEpoch.Calls.{Driven, hook_run_refines}
use foreseer.Web.DemoEpoch.Steady.{Steady, Idle, shown}
use foreseer.Web.DemoEpoch.Fresh.{hook_run-Steady}
use foreseer.Web.DemoEpoch.Press.{Ended, play_pressed-Ended}
use foreseer.Demo.Recompute.{digest, draw, draw_limit}
use foreseer.Demo.Recompute.Words.{draw-some}
use foreseer.Demo.Recompute.Fair.{words_for, words_for-draw_limit}
use foreseer.Demo.Table.{
  Table, TableEvent, Spun, spin_pressed, spin_answered, spin_failed, ball_landed, new_table,
  table_run,
}
use foreseer.Demo.Table.Ledger.{Banked, staked, returned, table_run-chips}
use foreseer.Engine.{Engine}
use foreseer.Demo.Anchor.{Contract, Poster}
use foreseer.Api.Run.{genesis}
use foreseer.Tests.Games.{counter, one_play}

-- Armed, and ready to play.
abbrev armed : List Event
armed = seen ∷ loaded ∷ []

play_pressed-Ended_example : Ended (hook_run toy counter one_play "seed" armed (mounted 0)) (
    hook_run toy counter one_play "seed"
      (play_pressed none ∷ animated ∷ [])
      (hook_run toy counter one_play "seed" armed (mounted 0)))
unfolding flush on_seen on_loaded open_demo
play_pressed-Ended_example =
    play_pressed-Ended toy counter one_play "seed" 0 armed none
      (hook_run toy counter one_play "seed" armed (mounted 0)) refl refl refl refl

-- A press before the engine is there, a reveal, and a new epoch.
abbrev long_run : List Event
long_run =
    seen
    ∷ play_pressed none
    ∷ loaded
    ∷ play_pressed none
    ∷ animated
    ∷ reveal_pressed
    ∷ next_pressed
    ∷ []

hook_run_refines_example :
    Driven toy counter one_play "seed"
      (built 0)
      (hook_run toy counter one_play "seed" long_run (mounted 0)).engine
    × ((shown (hook_run toy counter one_play "seed" long_run (mounted 0)).animation ≡ false)
        ⊎ ((hook_run toy counter one_play "seed"
              (next_pressed ∷ [])
              (hook_run toy counter one_play "seed" long_run (mounted 0))).engine
            ≡ (hook_run toy counter one_play "seed" long_run (mounted 0)).engine))
hook_run_refines_example = hook_run_refines toy counter one_play "seed" 0 long_run next_pressed

hook_run-Steady_example :
    Steady (hook_run toy counter one_play "seed" long_run (mounted 0))
    × Idle (hook_run toy counter one_play "seed" long_run (mounted 0))
hook_run-Steady_example = hook_run-Steady toy counter one_play "seed" 0 long_run

-- A digest whose first word is rejected, and whose second is 5.
abbrev rejected_first : String → Bytes
rejected_first s =
    255 ∷ 255 ∷ 255 ∷ 255 ∷ 0 ∷ 0 ∷ 0 ∷ 5 ∷ 0 ∷ 0 ∷ 0 ∷ 0 ∷ 0 ∷ 0 ∷ 0 ∷ 0 ∷ 0 ∷ 0 ∷ 0 ∷ 0 ∷ 0 ∷ 0
    ∷ 0 ∷ 0 ∷ 0 ∷ 0 ∷ 0 ∷ 0 ∷ 0 ∷ 0 ∷ 0 ∷ 0 ∷ []

draw-some_example : (y : ℕ) × (draw rejected_first "alice" 0 37 2 ≡ some y) × (y < 37)
unfolding digest draw_limit
draw-some_example =
    draw-some rejected_first "alice" 0 37 1 2 5 (λ block. refl) (omega arith) (omega arith) refl
      (omega arith)

words_for-draw_limit_example : words_for 37 17 (draw_limit 37) ≡ 2 ^ 32 / 37
words_for-draw_limit_example = words_for-draw_limit 37 17 (omega arith)

abbrev red_win : Spun
red_win = record { number = 32; win = true; payout_bp = 20000 }

abbrev table_events : List TableEvent
table_events =
    spin_pressed (some (pos 10))
    ∷ spin_answered red_win
    ∷ ball_landed
    ∷ spin_pressed none
    ∷ spin_failed
    ∷ []

table_run-chips_example :
    Banked (table_run table_events new_table)
    × ((table_run table_events new_table).chips + staked table_events new_table
        ≡ 1000 + returned table_events new_table)
table_run-chips_example = table_run-chips table_events

abbrev asking : Table
asking = record new_table { asked = some 10; disabled = true }

-- A contract that keeps the list of its anchored epochs.
abbrev anchors : Contract (List ℕ)
anchors = record {
  tee_id = λ c. "0";
  epochs = λ c i. record { committed = false; anchored = any (λ j. j == i) c };
  commit_epoch = λ i seed_commit c. (ok tt, c);
  anchor_epoch = λ a c. (ok tt, a.epoch_id ∷ c);
}

-- A server that has closed its first epoch.
abbrev closed_once : Engine
closed_once = record genesis {
  db = record genesis.db {
    epochs =
        record {
          epoch_id = 1;
          seed_commit = "10110";
          server_seed = "10110";
          opened_at = 0;
          closed_at = some 400;
          merkle_root = some "0";
          receipt_count = some 0;
          close_signature = some "0";
        }
        ∷ [];
  };
}

abbrev before : Poster (List ℕ)
before = record { server = closed_once; chain = [] }

abbrev behind : Poster (List ℕ)
behind = record { server = closed_once; chain = 1 ∷ [] }
