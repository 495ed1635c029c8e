-- ===== src/Tests/Casino.antt =====
-- The theorems about the clients of the server, at a run with a rule whose hash is a hash.
use foreseer.Base.{
  ◌≡◌, ◌≢◌, refl, String, true, false, none, some, List, [], ◌∷◌, arith, ap, ◌∙◌, take,
}
use foreseer.Base.Text.{codes}
use foreseer.Base.Exec.{ok, err, api}
use foreseer.Json.{Value, string, object, field, end}
use text.Mathlib.TextPositions.{eq_refl}
use foreseer.Sdk.{Receipt, Verifier, AcceptsSigner}
use foreseer.Sdk.Toy.{toy, toy-SdkLaws}
use foreseer.Db.{
  EpochRow, ReceiptRow, open_epoch, epoch_by_id, insert_epoch, max_epoch_id, order_by_bet,
  set_closed, next_nonce, insert_receipt, rule_by_hash, insert_rule,
}
use foreseer.Engine.{
  Engine, new_config, row_to_receipt, receipt_rows, ensure_epoch, play, close_open, tick,
}
use foreseer.Engine.Sound.{IsSound}
use foreseer.Funds.{operator_funds, play_charges, group_by_price, add_groups, sum_deposits}
use foreseer.Api.Operators.{create_operator, insert_operator, operator_by_name, owner_of}
use foreseer.Api.Rules.{register, load_rule, fetch_rule, is_hash}
use foreseer.Api.Run.Registry.{run-fetch_rule}
use foreseer.Api.Play.{play_handler}
use foreseer.Api.Topup.{credit}
use foreseer.Api.Pages.{health, receipt_json}
use foreseer.Api.Run.{genesis, Call, ensured, ticked, created, registered, played, topped_up, run}
use foreseer.Api.Run.Fair.{run-IsSound, genesis-IsSound}
use foreseer.Guards.{operator_guard, operator_by_key, play_rate_guard}
use foreseer.Base.JsMap.{get, set}
use foreseer.Api.Verify.{is_signer}
use foreseer.Demo.Casino.{Casino, CasinoSdk, Served, SpinAnswer, rule_for, ensure_registered, spin}
use foreseer.Demo.Casino.Spin.{Spun, Trusted, spin-Spun, spin-Trusted}
use foreseer.Demo.Evidence.{Evidence, evidence_for}
use foreseer.Demo.Evidence.Green.{AllGreen, evidence_for-AllGreen}
use foreseer.Demo.Evidence.Page.{evidence_for-beyond_page}
use foreseer.Web.Widget.{Report, load_and_check}
use foreseer.Web.Widget.Green.{load_and_check-all_green}
use foreseer.Tests.{same_text, options, acme, paid, name_body}

abbrev zeros : String
zeros = "0x0000000000000000000000000000000000000000000000000000000000000000"

abbrev zero_rule : Value
zero_rule = object (field "id" (string zeros) end)

-- A topup, two plays of the rule, and a rotation.
abbrev zero_calls : List Call
zero_calls =
    ensured 0 (1 ∷ 2 ∷ [])
    ∷ created name_body 0 "00"
    ∷ registered 1 (object (field "rule" zero_rule end)) 1
    ∷ topped_up acme "0xcc" "0x01" (some paid) 2
    ∷ played acme
        (object (field "clientSeed" (string "seed") (field "ruleHash" (string zeros) end))) 3
        (7 ∷ [])
    ∷ played acme
        (object (field "clientSeed" (string "seed") (field "ruleHash" (string zeros) end))) 4
        (7 ∷ [])
    ∷ ticked 400 (3 ∷ [])
    ∷ []

abbrev zero_epoch : EpochRow
zero_epoch = record {
  epoch_id = 1;
  seed_commit = "10110";
  server_seed = "10110";
  opened_at = 0;
  closed_at = some 400;
  merkle_root = some "1000101010";
  receipt_count = some 2;
  close_signature = some "0";
}

abbrev zero_play : ReceiptRow
zero_play = record {
  epoch_id = 1;
  bet_id = 1;
  operator_id = 1;
  client_seed = "seed";
  nonce = 1;
  rule_hash = zeros;
  draws = 3 ∷ [];
  win = 0;
  payout_bp = 19800;
  timestamp = 4;
  signature = "0";
  price_wei = 5;
}

zero_after : Engine
unfolding create_operator insert_operator operator_by_name owner_of new_config open_epoch
    epoch_by_id insert_epoch max_epoch_id order_by_bet set_closed next_nonce insert_receipt
    rule_by_hash insert_rule receipt_rows ensure_epoch play close_open tick operator_funds
    play_charges group_by_price add_groups sum_deposits register load_rule play_handler credit
zero_after = run same_text toy (new_config toy options) 5 zero_calls genesis

zero_after-IsSound : IsSound toy (new_config toy options) zero_after
unfolding zero_after
zero_after-IsSound =
    run-IsSound same_text toy (new_config toy options) 5 zero_calls genesis
      (genesis-IsSound toy (new_config toy options))

evidence_for-AllGreen_example :
    (out : Evidence) × (s' : Engine) × (evidence_for toy
        (new_config toy options)
        (health (new_config toy options) none)
        1
        1
        500
        []
        zero_after
      ≡ (ok out, s'))
    × AllGreen out
    × (out.entry ≡ receipt_json (row_to_receipt toy zero_play "10110") "0")
unfolding zero_after epoch_by_id receipt_rows order_by_bet new_config is_hash
evidence_for-AllGreen_example =
    evidence_for-AllGreen toy (new_config toy options) none zero_after zero_epoch zero_play 1 1 500
      [] 400 toy-SdkLaws refl refl zero_after-IsSound refl refl refl (omega arith) refl

evidence_for-beyond_page_example :
    evidence_for toy
      (new_config toy options)
      (health (new_config toy options) none)
      1
      1000
      500
      []
      zero_after
    ≡ (err (api 404 "unknown bet in this epoch"), zero_after)
unfolding zero_after epoch_by_id
evidence_for-beyond_page_example =
    evidence_for-beyond_page toy (new_config toy options) none zero_after zero_epoch 1 1000 500 []
      zero_after-IsSound refl (omega arith)

-- A check of signatures that recovers the signer.
abbrev recovering : Verifier
recovering signed d none = record { accepted = false; tee_id = none; error = "no signer" }
recovering signed d (some a) = record {
  accepted =
      is_signer a (toy.recover_signer (toy.receipt_digest signed.receipt d) signed.signature);
  tee_id = toy.recover_signer (toy.receipt_digest signed.receipt d) signed.signature;
  error = "wrong signer";
}

abbrev recovering-AcceptsSigner : AcceptsSigner toy recovering
recovering-AcceptsSigner = record { accepts = λ signed d a h. ap (is_signer a) h ∙ eq_refl a }

zero_named : (new_config toy options).tee_id ≢ ""
unfolding new_config
zero_named h = let e : codes "0" ≡ codes "" = ap codes h in absurd (ground arith)

load_and_check-all_green_example :
    (report : Report) × (s' : Engine) × (load_and_check toy recovering
        (new_config toy options)
        (health (new_config toy options) none)
        114
        1
        1
        zero_after
      ≡ (ok report, s'))
    × (report.all_green ≡ true)
unfolding zero_after epoch_by_id receipt_rows order_by_bet new_config is_hash
load_and_check-all_green_example =
    load_and_check-all_green toy (new_config toy options) none zero_after zero_epoch zero_play 1 1
      recovering 400 toy-SdkLaws recovering-AcceptsSigner refl zero_named refl zero_after-IsSound
      refl refl refl (omega arith) refl

abbrev toy_casino : CasinoSdk
toy_casino = record {
  is_client_seed = λ s. true;
  roulette = λ bet. some zero_rule;
  pocket_color = λ n. "red";
  verify_signature = recovering;
}

abbrev red_body : Value
red_body = object (
    field "clientSeed" (string "seed") (field "bet" (object (field "type" (string "red") end)) end))

-- The balance of the run is used up.
abbrev poor : Casino
poor = record { server = zero_after; windows = []; registered = [] }

-- The operator's key, with the identity for SHA-256.
abbrev served : Served
unfolding new_config
served = record {
  sdk = toy;
  config = new_config toy options;
  price = 5;
  rate = record { limit = 10; window_seconds = 60 };
  sha256 = same_text;
}

spin-Spun_example :
    Spun served toy_casino
      (some "fsk_00")
      500
      500000
      red_body
      []
      poor
      (spin served toy_casino (some "fsk_00") red_body 500 500000 [] poor).0
unfolding served
spin-Spun_example =
    spin-Spun served toy_casino (some "fsk_00") 500 500000 red_body [] poor toy-SdkLaws
      recovering-AcceptsSigner refl refl zero_after-IsSound

-- Before the plays.
zero_before : Engine
unfolding create_operator insert_operator operator_by_name owner_of new_config open_epoch
    epoch_by_id insert_epoch max_epoch_id ensure_epoch register insert_rule rule_by_hash credit
    operator_funds play_charges group_by_price add_groups sum_deposits
zero_before = run same_text toy (new_config toy options) 5 (take 4 zero_calls) genesis

abbrev rich : Casino
rich = record { server = zero_before; windows = []; registered = [] }

abbrev zero_receipt : Receipt
zero_receipt = record {
  spec_version = 1;
  code_version = "0x6094";
  epoch_id = 1;
  bet_id = 0;
  seed_commit = "10110";
  client_seed = "seed";
  nonce = 0;
  rule_hash = zeros;
  draws = 2 ∷ [];
  win = true;
  payout_bp = 19800;
  timestamp = 3;
}

abbrev zero_answer : SpinAnswer
zero_answer = record {
  epoch_id = 1;
  bet_id = 0;
  nonce = 0;
  number = some 2;
  color = "red";
  win = true;
  payout_bp = 19800;
  receipt = zero_receipt;
  signature = "0";
}

spin-Trusted_example : Trusted served toy_casino (some "fsk_00") 3 3000 zero_answer
unfolding spin rule_for ensure_registered zero_before new_config open_epoch epoch_by_id insert_epoch
    max_epoch_id order_by_bet next_nonce insert_receipt rule_by_hash insert_rule receipt_rows
    ensure_epoch play operator_funds play_charges group_by_price add_groups sum_deposits register
    load_rule play_handler operator_guard operator_by_key play_rate_guard get set
spin-Trusted_example =
    spin-Trusted served toy_casino (some "fsk_00") 3 3000 red_body [] rich zero_answer refl

abbrev zero_rule_body : Value
zero_rule_body = object (field "rule" zero_rule end)

abbrev with_zeros : Engine
with_zeros = (register toy 2 zero_rule_body 9 genesis).1

registered_zeros : register toy 2 zero_rule_body 9 genesis ≡ (ok zeros, with_zeros)
unfolding register
registered_zeros = refl

run-fetch_rule_example :
    (rule : Value) × (toy.rule_hash rule ≡ zeros)
    × (fetch_rule toy with_zeros.db zeros ≡ ok rule)
    × (fetch_rule toy (run same_text toy (new_config toy options) 5 zero_calls with_zeros).db zeros
        ≡ ok rule)
unfolding is_hash
run-fetch_rule_example =
    run-fetch_rule same_text toy (new_config toy options) 5 2 9 zero_rule_body zeros genesis
      with_zeros zero_calls (genesis-IsSound toy (new_config toy options)) registered_zeros refl
