-- ===== src/Tests/Server.antt =====
-- The theorems about the engine and the verification, at the run of Tests.antt.
use foreseer.Base.{◌≡◌, refl, true, none, some, List, [], ◌∷◌, ◌⊎◌}
use foreseer.Base.Int.{pos}
use foreseer.Base.Exec.{ok}
use foreseer.Json.{string, object, field, end}
use foreseer.Sdk.Toy.{toy, toy-SdkLaws}
use foreseer.Db.{
  EpochRow, ReceiptRow, open_epoch, epoch_by_id, insert_epoch, max_epoch_id, order_by_bet,
  set_closed, next_nonce, insert_receipt, rule_by_hash, insert_rule,
}
use foreseer.Engine.{
  Engine, Config, PlayInput, Proof, row_to_receipt, new_config, receipt_rows, ensure_epoch, play,
  close_open, tick, cached_tree, proof_for,
}
use foreseer.Engine.Sound.{IsSound, entry_of}
use foreseer.Engine.Play.{Answer, play_answers}
use foreseer.Engine.Close.{close_of, with_closed, close_open_seals}
use foreseer.Engine.Cache.{cached_tree_lem}
use foreseer.Engine.Proofs.{Leads, proof_for-Leads}
use foreseer.Engine.Answers.{ProofAnswer, proof_for_answers}
use foreseer.Engine.Tick.{Rotation, tick_rotates}
use foreseer.Funds.{operator_funds, play_charges, group_by_price, add_groups, sum_deposits}
use foreseer.Api.Operators.{create_operator, insert_operator, operator_by_name, owner_of}
use foreseer.Api.Rules.{register, load_rule}
use foreseer.Api.Play.{play_handler}
use foreseer.Api.Topup.{credit}
use foreseer.Api.Verify.{verify, checked}
use foreseer.Api.Verify.Green.{green}
use foreseer.Api.Run.{genesis, ticked, run, step}
use foreseer.Api.Run.Fair.{run_all_green, run-IsSound, genesis-IsSound, step-IsSound}
use foreseer.Tests.{same_text, options, calls, after}

abbrev config : Config
unfolding new_config
config = new_config toy options

abbrev first_epoch : EpochRow
first_epoch = record {
  epoch_id = 1;
  seed_commit = "10110";
  server_seed = "10110";
  opened_at = 0;
  closed_at = some 400;
  merkle_root = some "1000101010";
  receipt_count = some 2;
  close_signature = some "0";
}

abbrev second_play : ReceiptRow
second_play = record {
  epoch_id = 1;
  bet_id = 1;
  operator_id = 1;
  client_seed = "seed";
  nonce = 1;
  rule_hash = "dice";
  draws = 3 ∷ [];
  win = 0;
  payout_bp = 19800;
  timestamp = 4;
  signature = "0";
  price_wei = 5;
}

run_all_green_example :
    (verify toy
      (new_config toy options)
      1
      1
      (run same_text toy (new_config toy options) 5 calls genesis)).0
    ≡ ok (checked green true)
unfolding create_operator insert_operator operator_by_name owner_of new_config open_epoch
    epoch_by_id insert_epoch max_epoch_id order_by_bet set_closed next_nonce insert_receipt
    rule_by_hash insert_rule receipt_rows ensure_epoch play close_open tick operator_funds
    play_charges group_by_price add_groups sum_deposits register load_rule play_handler credit
run_all_green_example =
    run_all_green same_text toy options 5 calls first_epoch second_play 1 1 400 toy-SdkLaws refl
      refl refl

after-IsSound : IsSound toy (new_config toy options) after
unfolding after
after-IsSound =
    run-IsSound same_text toy (new_config toy options) 5 calls genesis
      (genesis-IsSound toy (new_config toy options))

abbrev input : PlayInput
input = record {
  operator_id = 1;
  client_seed = "seed";
  rule = object (field "id" (string "dice") end);
  nonce = some (pos 1);
  price_wei = some 5;
}

play_answers_example :
    Answer toy
      (new_config toy options)
      input
      500
      []
      after
      (play toy (new_config toy options) input 500 [] after)
play_answers_example =
    play_answers toy (new_config toy options) input 500 [] after toy-SdkLaws after-IsSound

close_open_seals_example :
    ((open_epoch after.db.epochs ≡ none)
      × (close_open toy (new_config toy options) 500 after ≡ (ok none, after)))
    ⊎ ((e : EpochRow) × (older : List EpochRow) × (open_epoch after.db.epochs ≡ some e)
        × (after.db.epochs ≡ e ∷ older)
        × (close_open toy (new_config toy options) 500 after ≡ (
          ok (some (close_of toy (new_config toy options) 500 e after)),
          with_closed toy (new_config toy options) 500 e older after,
        ))
        × (open_epoch (with_closed toy (new_config toy options) 500 e older after).db.epochs
            ≡ none))
close_open_seals_example = close_open_seals toy (new_config toy options) 500 after after-IsSound

tick_rotates_example :
    Rotation toy
      (new_config toy options)
      800
      []
      after
      (tick toy (new_config toy options) 800 [] after)
tick_rotates_example = tick_rotates toy (new_config toy options) 800 [] after after-IsSound

cached_tree_lem_example :
    (s' : Engine) × (cached_tree toy (new_config toy options) first_epoch after
      ≡ (ok (entry_of toy (new_config toy options) after.db.receipts first_epoch), s'))
    × (s'.db ≡ after.db)
    × IsSound toy (new_config toy options) s'
unfolding after epoch_by_id
cached_tree_lem_example =
    cached_tree_lem toy (new_config toy options) after first_epoch refl refl after-IsSound

proof_for-Leads_example :
    (p : Proof) × (s' : Engine) × (proof_for toy (new_config toy options) 1 1 after ≡ (ok p, s'))
    × Leads toy
        (new_config toy options)
        (toy.receipt_digest
          (row_to_receipt toy second_play first_epoch.seed_commit)
          (new_config toy options).domain)
        p
    × (s'.db ≡ after.db)
    × IsSound toy (new_config toy options) s'
unfolding after epoch_by_id order_by_bet receipt_rows
proof_for-Leads_example =
    proof_for-Leads toy (new_config toy options) after first_epoch second_play 1 1 400 toy-SdkLaws
      after-IsSound refl refl refl

proof_for_answers_example :
    ProofAnswer toy
      (new_config toy options)
      after
      1
      9
      (proof_for toy (new_config toy options) 1 9 after)
proof_for_answers_example =
    proof_for_answers toy (new_config toy options) after 1 9 toy-SdkLaws after-IsSound

step-IsSound_example :
    IsSound toy
      (new_config toy options)
      (step same_text toy (new_config toy options) 5 (ticked 400 (3 ∷ [])) genesis)
step-IsSound_example =
    step-IsSound same_text toy (new_config toy options) 5 (ticked 400 (3 ∷ [])) genesis
      (genesis-IsSound toy (new_config toy options))
