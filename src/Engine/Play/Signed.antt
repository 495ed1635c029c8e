-- ===== src/Engine/Play/Signed.antt =====
-- What `play` answers is signed by the engine's key.
use foreseer.Base.{ℕ, ◌≡◌, arith, inl, inr, Bool-cases, Option-cases}
use foreseer.Base.Exec.{ok}
use foreseer.Sdk.{Bytes, Sdk, Receipt}
use foreseer.Db.{next_nonce}
use foreseer.Engine.{Engine, Config, PlayInput, Played, differs, play}
use foreseer.Engine.Sound.{IsSound}
use foreseer.Engine.Open.{ensure_epoch-IsSound}
use foreseer.Engine.Play.{play-entered, play-rejected}
use foreseer.Engine.Stored.{play_in-stored, play_in-refused, receipt_at}

module _ (sdk : Sdk) (config : Config) (input : PlayInput) (now : ℕ) (seed : Bytes)
    (s : Engine) where
  pub play-signed :
      (p : Played)
      → IsSound sdk config s
      → (play sdk config input now seed s).0 ≡ ok p
      → (r : Receipt) × (p.signed ≡ sdk.sign_receipt r config.domain config.key)
  play-signed p v h = elim (Option-cases (sdk.assert_client_seed input.client_seed)) [
    | inr (message, a) ↦
        absurd (ground (arith, play-rejected sdk config input now seed s message a))
    | inl a ↦
        let (e, s', q, o, v', rules, receipts, deposits) =
          ensure_epoch-IsSound sdk config now seed s v in
        let n = next_nonce e.epoch_id input.client_seed s'.db.receipts in
        let entered = play-entered sdk config input now seed s s' e a q in
        elim (Bool-cases (differs input.nonce n)) [
          | inl d ↦ absurd (ground (arith, play_in-refused sdk config input now e s' d))
          | inr d ↦ (
            receipt_at sdk config input now e s',
            ground (arith, play_in-stored sdk config input now e s' v' d),
          )
        ]
  ]
