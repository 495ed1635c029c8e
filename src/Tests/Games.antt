-- ===== src/Tests/Games.antt =====
-- The theorems about the demo games, at concrete draws.
use foreseer.Base.{suc, ◌*◌, ◌≤◌, ◌<◌, ◌≡◌, refl, count, some, arith}
use foreseer.Base.Int.{pos}
use foreseer.Base.{ℕ, suc, [], ◌∷◌, none, true}
use foreseer.Base.Exec.{ok}
use foreseer.Json.{undefined}
use foreseer.Sdk.Toy.{toy}
use foreseer.Web.DemoTee.{
  ReferenceTee, DemoConfig, built, next_epoch, play_once, reveal_all, demo_run,
}
use foreseer.Web.DemoTee.Steps.{InStep, demo_run-InStep}
use foreseer.Web.Payout.{rtp_bp, payout_bp, payout_bp-le}
use foreseer.Web.Dice.{over, outcomes, DiceRule, is_hit, draws_below, dice_rule, dice_rule-le}
use foreseer.Web.Roulette.{pocket_at_cell, spin_target, spin_target-pocket}

payout_bp-le_example : (7 * 21214 ≤ rtp_bp * 15) × (rtp_bp * 15 < 7 * suc 21214)
unfolding payout_bp
payout_bp-le_example = payout_bp-le 7 15 21214 refl

dice_rule-le_example :
    (r : DiceRule) × (dice_rule (some (pos 98)) over ≡ some r)
    × (count (λ d. is_hit d (some (pos 98)) over) (draws_below outcomes) * r.payout_bp
        ≤ rtp_bp * outcomes)
    × (rtp_bp * outcomes
        < count (λ d. is_hit d (some (pos 98)) over) (draws_below outcomes) * suc r.payout_bp)
dice_rule-le_example = dice_rule-le (some (pos 98)) over

spin_target-pocket_example :
    (pocket_at_cell (spin_target 47 9).target_cell ≡ 9)
    × (120 ≤ (spin_target 47 9).travel_cells)
    × ((spin_target 47 9).travel_cells < 135)
spin_target-pocket_example = spin_target-pocket 47 9 (omega arith)

-- A ReferenceTee that counts its epochs, and whose receipts all show the draw 7.
abbrev pub counter : ReferenceTee ℕ
counter = record {
  tee_id = "0";
  domain = record { name = "Foreseer"; version = "0"; chain_id = 114 };
  open_epoch = λ n. (ok (suc n, "110"), suc n);
  play = λ seed rule n. (
    ok (record {
      receipt = record {
        spec_version = 1;
        code_version = "0x";
        epoch_id = n;
        bet_id = 0;
        seed_commit = "110";
        client_seed = seed;
        nonce = 0;
        rule_hash = "dice";
        draws = 7 ∷ [];
        win = true;
        payout_bp = 19800;
        timestamp = 0;
      };
      signature = "0";
    }),
    n,
  );
  close_epoch = λ n. (ok (record { server_seed = "110"; merkle_root = "0"; receipt_count = 1 }), n);
  verify_receipt_signature = λ bet. true;
  merkle_proof = λ leaves i. leaves;
}

abbrev pub one_play : DemoConfig
one_play = record { rule = undefined; max_plays = 1 }

demo_run-InStep_example : InStep 1 (
    demo_run toy counter one_play "seed"
      (next_epoch ∷ play_once none ∷ play_once none ∷ reveal_all ∷ next_epoch ∷ [])
      (built 0))
demo_run-InStep_example =
    demo_run-InStep toy counter one_play "seed"
      (next_epoch ∷ play_once none ∷ play_once none ∷ reveal_all ∷ next_epoch ∷ []) 0
