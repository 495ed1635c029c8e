-- ===== src/Demo/Topup/Paid.antt =====
-- A payment of the script reaches the balance of the operator.
use foreseer.Base.{
  ℕ, ◌+◌, ◌<◌, ◌≡◌, ◌≢◌, refl, String, true, false, Option, none, some, ◌∷◌, arith, any, ◌==◌,
  nat_eq, string_eq, text_iff,
}
use foreseer.Base.Int.{pos, sub_ℕ}
use foreseer.Base.Exec.{Result, ok}
use foreseer.Db.{Db, OperatorRow}
use foreseer.Funds.{operator_funds}
use foreseer.Funds.Sums.{spent, deposited, operator_funds-sums}
use foreseer.Guards.{operator_guard, operator_by_key}
use foreseer.Api.Rules.{is_hash}
use foreseer.Api.Topup.{ChainTx, topup}
use foreseer.Demo.Setup.{Provider, Host, no_headers}
use foreseer.Demo.Topup.{topup_script, gateway_of, topup_body}

-- The tables with one deposit more.
abbrev pub with_deposit : OperatorRow → (owner hash : String) (amount now : ℕ) → Db → Db
with_deposit row owner hash amount now db = record db {
  deposits =
      record {
        tx_hash = hash;
        operator_id = row.id;
        from_wallet = owner;
        amount_wei = amount;
        created_at = now;
      }
      ∷ db.deposits;
}

module _ {C : Type 0} (sha256 : String → String) (provider : Provider C)
    (fetch : C → String → Result (Option ChainTx)) (treasury wallet_key key owner hash : String)
    (amount now : ℕ) (row : OperatorRow) (w : Host C) (chain : C) where
  -- The payment of the script, as the server's chain gateway sees it.
  abbrev payment : ChainTx
  payment = record {
    from = owner;
    to = some treasury;
    value_wei = pos amount;
    confirmed = true;
    success = true;
  }

  topup-paid :
      row.owner_wallet ≡ some owner
      → fetch chain hash ≡ ok (some payment)
      → is_hash hash ≡ true
      → 0 < amount
      → any (λ d. d.tx_hash == hash) w.server.db.deposits ≡ false
      → topup row (gateway_of (some treasury) (fetch chain)) (topup_body hash) now w.server ≡ (
        ok (record {
          credited_wei = amount;
          funds = operator_funds (with_deposit row owner hash amount now w.server.db) row.id;
        }),
        record w.server { db = with_deposit row owner hash amount now w.server.db },
      )
  unfolding topup
  topup-paid o e h p f = ground (arith, text_iff treasury treasury, text_iff owner owner)

  guarded :
      operator_by_key (sha256 key) w.server.db ≡ some row
      → row.active ≢ 0
      → operator_guard sha256 w.server.db (record no_headers { api_key = some key }) ≡ ok row
  unfolding operator_guard
  guarded k a = ground arith

  with_deposit-balance :
      (operator_funds (with_deposit row owner hash amount now w.server.db) row.id).balance_wei
      ≡ sub_ℕ
          (amount + deposited row.id w.server.db.deposits)
          (spent row.id none w.server.db.receipts)
  with_deposit-balance =
      rw (operator_funds-sums (with_deposit row owner hash amount now w.server.db) row.id)
        (ground arith)

  -- With the key of an active operator and the wallet of its owner, a payment above 0 that the
  -- provider confirms and the server sees on the chain under a hash of the right form, and that
  -- was not credited before, is credited by the script: the server has one deposit more, the chain
  -- is that after the payment, and the balance of the operator is its deposits, the amount among
  -- them, less what it spent.
  pub topup_script_lem :
      w.env.wallet_key ≡ some wallet_key
      → w.env.operator_key ≡ some key
      → operator_by_key (sha256 key) w.server.db ≡ some row
      → row.active ≢ 0
      → row.owner_wallet ≡ some owner
      → provider.send wallet_key treasury amount w.chain ≡ (ok hash, chain)
      → fetch chain hash ≡ ok (some payment)
      → is_hash hash ≡ true
      → 0 < amount
      → any (λ d. d.tx_hash == hash) w.server.db.deposits ≡ false
      → (topup_script sha256 provider fetch (some treasury) amount now w ≡ (
        ok (record {
          credited_wei = amount;
          funds = operator_funds (with_deposit row owner hash amount now w.server.db) row.id;
        }),
        record w {
          server = record w.server { db = with_deposit row owner hash amount now w.server.db };
          chain = chain;
        },
      ))
        × ((operator_funds (with_deposit row owner hash amount now w.server.db) row.id).balance_wei
            ≡ sub_ℕ
                (amount + deposited row.id w.server.db.deposits)
                (spent row.id none w.server.db.receipts))
  unfolding topup_script
  topup_script_lem wallet_set key_set known active owned sent seen hashed paid new = (
    rw (wallet_set, sent, key_set, guarded known active, topup-paid owned seen hashed paid new)
        refl,
    with_deposit-balance,
  )
