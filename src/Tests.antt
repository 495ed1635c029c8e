-- ===== src/Tests.antt =====
-- A run of the server on a concrete package, and in the modules below the theorems applied to it.
mod Server
mod Accounts
mod Wallets
mod Doors
mod Operators
mod Pages
mod Games
mod Casino
mod Clients
mod Dashboards
mod Setups
use foreseer.Base.{
  ℕ, ◌≤◌, ◌≡◌, ◌≢◌, refl, String, Bool, true, false, Option, none, some, List, [], ◌∷◌, inl, inr,
  arith, ◌==◌, nat_eq, string_eq, find,
}
use foreseer.Base.Int.{pos}
use foreseer.Base.Exec.{Result, ok, err, api}
use foreseer.Json.{Value, string, object, field, end}
use foreseer.Sdk.{Sdk}
use foreseer.Sdk.Toy.{toy, toy-SdkLaws}
use foreseer.Db.{
  Db, OperatorRow, EpochRow, ReceiptRow, open_epoch, epoch_by_id, insert_epoch, max_epoch_id,
  order_by_bet, set_closed, next_nonce, insert_receipt, rule_by_hash, insert_rule,
}
use foreseer.Engine.{
  Engine, Config, EngineOptions, new_config, receipt_rows, ensure_epoch, play, close_open, tick,
  cached_tree, proof_for,
}
use foreseer.Funds.{operator_funds, play_charges, group_by_price, add_groups, sum_deposits}
use foreseer.Api.Operators.{create_operator, insert_operator, operator_by_name, owner_of}
use foreseer.Api.Rules.{register, load_rule, is_hash}
use foreseer.Api.Play.{play_handler}
use foreseer.Api.Topup.{ChainTx, credit}
use foreseer.Api.Verify.{verify, checked}
use foreseer.Api.Run.{
  genesis, Call, ensured, ticked, closed, created, registered, played, proved, verified, topped_up,
  run,
}

-- The identity, for SHA-256.
abbrev pub same_text : String → String
same_text s = s

abbrev pub options : EngineOptions
options = record { private_key = none; chain_id = none; epoch_seconds = none }

abbrev pub acme : OperatorRow
acme = record {
  id = 1;
  name = "acme";
  api_key_hash = "k";
  created_at = 0;
  owner_wallet = some "0xaa";
  active = 1;
}

abbrev pub paid : ChainTx
paid = record {
  from = "0xaa";
  to = some "0xcc";
  value_wei = pos 12;
  confirmed = true;
  success = true;
}

abbrev pub name_body : Value
name_body = object (field "name" (string "acme") end)

abbrev pub dice_body : Value
dice_body = object (field "rule" (object (field "id" (string "dice") end)) end)

abbrev pub play_body : Value
play_body = object (field "clientSeed" (string "seed") (field "ruleHash" (string "dice") end))

-- A rule, a deposit of 12 wei, three plays at 5 wei of which the last is refused, and a rotation.
abbrev pub calls : List Call
calls =
    ensured 0 (1 ∷ 2 ∷ [])
    ∷ created name_body 0 "00"
    ∷ registered 1 dice_body 1
    ∷ topped_up acme "0xcc" "0x01" (some paid) 2
    ∷ played acme play_body 3 (7 ∷ [])
    ∷ played acme play_body 4 (7 ∷ [])
    ∷ played acme play_body 5 (7 ∷ [])
    ∷ ticked 400 (3 ∷ [])
    ∷ []

unfoldable pub after : Engine
unfolding create_operator insert_operator operator_by_name owner_of new_config open_epoch
    epoch_by_id insert_epoch max_epoch_id order_by_bet set_closed next_nonce insert_receipt
    rule_by_hash insert_rule receipt_rows ensure_epoch play close_open tick operator_funds
    play_charges group_by_price add_groups sum_deposits register load_rule play_handler credit
after = run same_text toy (new_config toy options) 5 calls genesis
