-- ===== src/Tests/Setups.antt =====
-- The theorems about the scripts that set the demo casino up, on a chain that takes every payment.
use foreseer.Base.{
  ℕ, ◌+◌, ◌≡◌, refl, String, true, Option, none, some, [], ◌∷◌, arith, ◌==◌, string_eq,
  if◌then◌else◌, Bool-cases, inl, inr, subst,
}
use foreseer.Base.Int.{pos}
use foreseer.Base.Text.{to_lower_case}
use foreseer.Base.Exec.{Result, ok}
use foreseer.Db.{OperatorRow}
use foreseer.Funds.{operator_funds}
use foreseer.Guards.{operator_by_key, admin_guard}
use foreseer.Api.Operators.{create_operator, owner_of}
use foreseer.Wallet.Text.{parse_wallet}
use foreseer.Api.Rules.{is_hash}
use foreseer.Api.Run.{genesis}
use foreseer.Api.Topup.{ChainTx}
use foreseer.Demo.Setup.{Wallet, Provider, Host, setup, provision, keep_key, fund, operator_name}
use foreseer.Demo.Setup.Again.{IsOwn, IsKnown, OnlyFunds, setup_again}
use foreseer.Demo.Topup.{topup_script}
use foreseer.Demo.Topup.Paid.{with_deposit, topup_script_lem}

abbrev same_text : String → String
same_text s = s

-- A wallet for each private key, all with one address.
abbrev wallet_with : String → Wallet
wallet_with key = record {
  private_key = key;
  address = "0xAAAAAAAAAAAAAAAAAAAAAAAAAAAAAAAAAAAAAAAA";
}

abbrev paid_hash : String
paid_hash = "0xabababababababababababababababababababababababababababababababab"

-- The chain counts its transactions.
abbrev provider : Provider ℕ
provider = record {
  get_balance = λ address n. (ok 0, n);
  send = λ key to value n. (ok paid_hash, n + 1);
}

abbrev bare : Host ℕ
bare = record {
  server = genesis;
  chain = 0;
  env = record {
    admin_key = none;
    operator_key = none;
    wallet_key = none;
    funder_key = some "0x2";
  };
}

-- An empty text is no private key.
abbrev wallet_made_of : String → Option Wallet
wallet_made_of key = if key == "" then none else some (wallet_with key)

wallet_made_of-IsOwn :
    (k : String) (x : Wallet) → wallet_made_of k ≡ some x → IsOwn wallet_made_of x
wallet_made_of-IsOwn k x h = elim (Bool-cases (k == "")) [
  | inl q ↦ absurd (ground arith)
  | inr q ↦
      let made : wallet_with k ≡ x = ground arith in
      subst (IsOwn wallet_made_of) made (rw q refl, q)
]

abbrev after_setup : Host ℕ
after_setup =
    (setup same_text "dev-admin-key" 5 wallet_made_of provider (wallet_with "0x3") 10 "r1" bare).1

set_up :
    setup same_text "dev-admin-key" 5 wallet_made_of provider (wallet_with "0x3") 10 "r1" bare
    ≡ (ok tt, after_setup)
unfolding setup provision keep_key fund admin_guard operator_name create_operator parse_wallet
    to_lower_case owner_of
set_up = refl

setup_again_example :
    (key : String) × (wallet : Wallet) × (after_setup.env.operator_key ≡ some key)
    × IsKnown same_text key after_setup.server.db
    × (after_setup.env.wallet_key ≡ some wallet.private_key)
    × (wallet_made_of wallet.private_key ≡ some wallet)
    × OnlyFunds same_text "dev-admin-key" 5 wallet_made_of provider wallet after_setup
        (setup same_text "dev-admin-key" 5 wallet_made_of provider
          (wallet_with "0x4")
          20
          "r2"
          after_setup).1
setup_again_example =
    setup_again same_text "dev-admin-key" 5 wallet_made_of provider (wallet_with "0x3")
      (wallet_with "0x4") 10 20 "r1" "r2" bare after_setup wallet_made_of-IsOwn
      (wallet_made_of-IsOwn "0x3" (wallet_with "0x3") refl) set_up

abbrev owner : String
owner = "0xaaaaaaaaaaaaaaaaaaaaaaaaaaaaaaaaaaaaaaaa"

abbrev treasury : String
treasury = "0xbbbbbbbbbbbbbbbbbbbbbbbbbbbbbbbbbbbbbbbb"

abbrev row : OperatorRow
row = record {
  id = 1;
  name = "roulette-demo-aaaaaaaa";
  api_key_hash = "fsk_r1";
  created_at = 10;
  owner_wallet = some owner;
  active = 1;
}

abbrev ready : Host ℕ
ready = record bare {
  server = record genesis { db = record genesis.db { operators = row ∷ []; last_operator_id = 1 } };
  env = record {
    admin_key = none;
    operator_key = some "fsk_r1";
    wallet_key = some "0x3";
    funder_key = none;
  };
}

abbrev fetch : ℕ → String → Result (Option ChainTx)
fetch n hash = ok (
    some (record {
      from = owner;
      to = some treasury;
      value_wei = pos 7;
      confirmed = true;
      success = true;
    }))

row_found : operator_by_key "fsk_r1" ready.server.db ≡ some row
unfolding operator_by_key
row_found = refl

paid_hash-IsHash : is_hash paid_hash ≡ true
unfolding is_hash
paid_hash-IsHash = refl

topup_script_lem_example :
    (topup_script same_text provider fetch (some treasury) 7 20 ready ≡ (
      ok (record {
        credited_wei = 7;
        funds = operator_funds (with_deposit row owner paid_hash 7 20 ready.server.db) 1;
      }),
      record ready {
        server = record ready.server { db = with_deposit row owner paid_hash 7 20 ready.server.db };
        chain = 1;
      },
    ))
    × ((operator_funds (with_deposit row owner paid_hash 7 20 ready.server.db) 1).balance_wei
        ≡ pos 7)
topup_script_lem_example =
    topup_script_lem same_text provider fetch treasury "0x3" "fsk_r1" owner paid_hash 7 20 row ready
      1 refl refl row_found (omega arith) refl refl refl paid_hash-IsHash (omega arith) refl
