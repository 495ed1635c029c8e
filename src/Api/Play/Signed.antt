-- ===== src/Api/Play/Signed.antt =====
-- What POST /play answers is signed by the engine's key.
use foreseer.Base.{ℕ, ◌≡◌, String, Option, arith, inl, inr, Bool-cases, Option-cases}
use foreseer.Base.Int.{ℤ}
use foreseer.Base.Exec.{ok}
use foreseer.Json.{Value}
use foreseer.Sdk.{Bytes, Sdk, Receipt}
use foreseer.Db.{OperatorRow, rule_by_hash}
use foreseer.Engine.{Engine, Config, Played}
use foreseer.Engine.Sound.{IsSound}
use foreseer.Engine.Play.Signed.{play-signed}
use foreseer.Funds.{operator_funds}
use foreseer.Api.Play.{is_prepaid, can_pay, play_checked, play_handler}
use foreseer.Api.Play.Kept.{
  play_checked-charged, play_checked-unknown, play_checked-unpaid, play_handler_cases, input_of,
}

module _ (sdk : Sdk) (config : Config) (price : ℕ) (operator : OperatorRow) (now : ℕ) (seed : Bytes)
    (s : Engine) where
  play_checked-signed :
      (client_seed hash : String) (nonce : Option ℤ) (p : Played)
      → IsSound sdk config s
      → (play_checked sdk config price operator client_seed hash nonce now seed s).0 ≡ ok p
      → (r : Receipt) × (p.signed ≡ sdk.sign_receipt r config.domain config.key)
  play_checked-signed client_seed hash nonce p v h =
      elim (Bool-cases (
        can_pay (is_prepaid operator.owner_wallet price) price (operator_funds s.db operator.id))) [
          | inr c ↦ absurd (
              ground (
                arith,
                play_checked-unpaid sdk config price operator client_seed hash nonce now seed s c,
              ))
          | inl c ↦ elim (Option-cases (rule_by_hash hash s.db.rules)) [
            | inl r ↦ absurd (
                ground (
                  arith,
                  play_checked-unknown sdk config price operator client_seed hash nonce now seed s c
                      r,
                ))
            | inr (row, r) ↦
                play-signed sdk config
                  (input_of sdk config price operator client_seed nonce row.rule_json) now seed s p
                  v
                  (ground (
                    arith,
                    play_checked-charged sdk config price operator client_seed hash nonce now seed s
                        row c r,
                  ))
          ]
        ]

  pub play_handler-signed :
      (body : Value) (p : Played)
      → IsSound sdk config s
      → (play_handler sdk config price operator body now seed s).0 ≡ ok p
      → (r : Receipt) × (p.signed ≡ sdk.sign_receipt r config.domain config.key)
  play_handler-signed body p v h =
      elim (play_handler_cases sdk config price operator body now seed s) [
        | inl (e, q) ↦ absurd (ground arith)
        | inr (client_seed, hash, nonce, q) ↦
            play_checked-signed client_seed hash nonce p v (ground arith)
      ]
