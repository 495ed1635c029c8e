-- ===== src/Demo/Topup.antt =====
-- demo/topup.mjs: pays the treasury from the casino's wallet, and has the payment credited.
pub mod Paid
use foreseer.Base.{ℕ, String, Option, none, some}
use foreseer.Base.Exec.{Result, ok, err, thrown, Exec, gets, or_raise, ◌>>=◌, ◌>>◌}
use foreseer.Json.{Value, string, object, field, end}
use foreseer.Engine.{Engine}
use foreseer.Guards.{operator_guard}
use foreseer.Api.Topup.{ChainTx, ChainGateway, Credited, topup}
use foreseer.Demo.Setup.{Provider, Env, Host, no_headers, at_server, at_chain, calling}

abbrev pub topup_body : String → Value
topup_body hash = object (field "txHash" (string hash) end)

-- What the server's chain gateway sees, if it has a treasury.
abbrev pub gateway_of : Option String → (String → Result (Option ChainTx)) → Option ChainGateway
gateway_of none fetch = none
gateway_of (some treasury) fetch = some (record { treasury = treasury; fetch_tx = fetch })

module _ (sha256 : String → String) where
  -- POST /billing/topup behind OperatorGuard.
  abbrev pub topup_as : String → Option ChainGateway → Value → ℕ → Exec Engine Credited
  topup_as key chain body now = do
    row ← (λ s. (operator_guard sha256 s.db (record no_headers { api_key = some key }), s))
    topup row chain body now

  -- `treasury` is that of the server, as /health shows it, and `fetch` its view of the chain.
  unfoldable pub topup_script :
      {C : Type 0}
      → Provider C
      → (C → String → Result (Option ChainTx))
      → Option String
      → ℕ
      → ℕ
      → Exec (Host C) Credited
  topup_script provider fetch treasury amount now = do
    env ← gets (λ w. w.env)
    wallet_key ← or_raise env.wallet_key thrown
    address ← or_raise treasury thrown
    hash ← at_chain (provider.send wallet_key address amount)
    key ← or_raise env.operator_key thrown
    chain ← gets (λ w. w.chain)
    at_server (calling (topup_as key (gateway_of treasury (fetch chain)) (topup_body hash) now))
