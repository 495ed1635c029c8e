-- ===== src/Engine/Play.antt =====
-- `play`: the receipt that it signs and stores.
pub mod Signed
use Prim.Native.String.{◌++◌}
use foreseer.Base.{
  ℕ, ◌≡◌, refl, sym, ◌∙◌, ap, String, Bool, true, false, none, some, List, ◌∷◌, arith, inl, inr,
  Bool-cases, count, ◌==◌, nat_eq, if◌then◌else◌, subst, Option-cases,
}
use foreseer.Base.Exec.{ok, err, api, Result}
use foreseer.Base.Text.{decimal}
use foreseer.Sdk.{Bytes, Sdk, SdkLaws, SignedReceipt, Receipt}
use foreseer.Db.{
  EpochRow, ReceiptRow, RuleRow, is_open, in_epoch, of_player, rule_by_hash, next_nonce,
}
use foreseer.Db.Epochs.{IsHistory, EpochsAreOrdered}
use foreseer.Db.Receipts.{next_nonce-count, insert_receipt-numbered}
use foreseer.Engine.{
  Engine, Config, PlayInput, Played, ensure_epoch, or_default, play, play_in, differs, new_receipt,
  new_receipt_row, row_to_receipt,
}
use foreseer.Engine.Sound.{seeds_of, IsSound, ReceiptIsSound, EpochsAreSealed, CacheIsFresh}
use foreseer.Engine.Frame.{EpochsAreSealed-insert_open, CacheIsFresh-insert}
use foreseer.Engine.Open.{HasOpen, ensure_epoch-IsSound}
use foreseer.Engine.Stored.{
  receipt_at, row_at, play_in-stored, play_in-refused, play_in_cases, row_to_receipt-new,
  play_in-rules,
}

module _ (sdk : Sdk) (config : Config) (input : PlayInput) (now : ℕ) (seed : Bytes) where
  play-entered :
      (s s' : Engine) (e : EpochRow)
      → sdk.assert_client_seed input.client_seed ≡ none
      → ensure_epoch sdk now seed s ≡ (ok e, s')
      → play sdk config input now seed s ≡ play_in sdk config input now e s'
  unfolding play
  play-entered s s' e a q = ground arith

  play-rejected :
      (s : Engine) (message : String)
      → sdk.assert_client_seed input.client_seed ≡ some message
      → play sdk config input now seed s ≡ (err (api 400 message), s)
  unfolding play
  play-rejected s message a = ground arith

  -- Whatever `play` answers, it leaves the engine sound, if its rule is the registered one.
  pub play-IsSound :
      (s : Engine) (rule : RuleRow)
      → rule_by_hash (sdk.rule_hash input.rule) s.db.rules ≡ some rule
      → rule.rule_json ≡ input.rule
      → IsSound sdk config s
      → IsSound sdk config (play sdk config input now seed s).1
  play-IsSound s rule registered same v =
      elim (Option-cases (sdk.assert_client_seed input.client_seed)) [
        | inr (message, a) ↦ rw (play-rejected s message a) v
        | inl a ↦
            let (e, s', q, o, v', rules, receipts, deposits) =
              ensure_epoch-IsSound sdk config now seed s v in
            rw (play-entered s s' e a q)
              (play_in_cases sdk config input now e s' rule (rw rules registered) same o v')
      ]

  -- A play registers no rule.
  pub play-rules :
      (s : Engine)
      → IsSound sdk config s
      → (play sdk config input now seed s).1.db.rules ≡ s.db.rules
  play-rules s v = elim (Option-cases (sdk.assert_client_seed input.client_seed)) [
    | inr (message, a) ↦ rw (play-rejected s message a) refl
    | inl a ↦
        let (e, s', q, o, v', rules, receipts, deposits) =
          ensure_epoch-IsSound sdk config now seed s v in
        rw (play-entered s s' e a q) (play_in-rules sdk config input now e s' v' ∙ rules)
  ]

  abbrev nonce_message : ℕ → String
  nonce_message n = "nonce must be " ++ decimal n ++ " for this clientSeed"

  -- A bad seed changes nothing, and a bad nonce stores nothing; a bet with a good seed stores one row,
  -- with the next numbers of its epoch and player.
  pub data Answer (s : Engine) : Result Played × Engine → Type 0 where
    bad_seed :
        (message : String)
        → sdk.assert_client_seed input.client_seed ≡ some message
        → Answer s (err (api 400 message), s)
    bad_nonce :
        {s' : Engine} (e : EpochRow) (n : ℕ)
        → sdk.assert_client_seed input.client_seed ≡ none
        → HasOpen e s'
        → n ≡ count (of_player e.epoch_id input.client_seed) s.db.receipts
        → differs input.nonce n ≡ true
        → s'.db.receipts ≡ s.db.receipts
        → s'.db.deposits ≡ s.db.deposits
        → Answer s (err (api 409 (nonce_message n)), s')
    placed :
        {s' : Engine} (e : EpochRow) (p : Played) (row : ReceiptRow)
        → sdk.assert_client_seed input.client_seed ≡ none
        → HasOpen e s'
        → p.epoch_id ≡ e.epoch_id
        → differs input.nonce p.signed.receipt.nonce ≡ false
        → p.bet_id ≡ count (in_epoch p.epoch_id) s.db.receipts
        → p.signed.receipt.nonce ≡ count (of_player p.epoch_id input.client_seed) s.db.receipts
        → row_to_receipt sdk row p.signed.receipt.seed_commit ≡ p.signed.receipt
        → row.signature ≡ p.signed.signature
        → row.operator_id ≡ input.operator_id
        → row.price_wei ≡ or_default input.price_wei 0
        → s'.db.receipts ≡ row ∷ s.db.receipts
        → s'.db.deposits ≡ s.db.deposits
        → Answer s (ok p, s')

  play_in_answers :
      (e : EpochRow) (s s' : Engine)
      → SdkLaws sdk
      → sdk.assert_client_seed input.client_seed ≡ none
      → s'.db.receipts ≡ s.db.receipts
      → s'.db.deposits ≡ s.db.deposits
      → HasOpen e s'
      → IsSound sdk config s'
      → Answer s (play_in sdk config input now e s')
  play_in_answers e s s' laws a q deposits o v =
      let n = next_nonce e.epoch_id input.client_seed s'.db.receipts in
      let counted =
        next_nonce-count e.epoch_id input.client_seed s'.db.receipts v.numbered
        ∙ ap (count (of_player e.epoch_id input.client_seed)) q in
      let signed_receipt =
        laws.signed_receipt (receipt_at sdk config input now e s') config.domain config.key in
      elim (Bool-cases (differs input.nonce n)) [
        | inl d ↦
            rw (play_in-refused sdk config input now e s' d)
              (bad_nonce e n a o counted d q deposits)
        | inr d ↦ rw (play_in-stored sdk config input now e s' v d) (
            placed e _ (row_at sdk config input now e s') a
              (record { older = o.older; newest = o.newest; is_open = o.is_open }) refl
              (rw signed_receipt d) (rw q refl) (rw signed_receipt counted)
              (rw signed_receipt (row_to_receipt-new sdk config input now e _ _)) refl refl refl
              (ap (λ rs. row_at sdk config input now e s' ∷ rs) q) deposits)
      ]

  -- On a sound engine `play` rejects a bad client seed with nothing changed, or, with a good one,
  -- refuses a nonce other than the player's number of receipts in the open epoch, or stores one
  -- receipt, whose bet id and nonce are the numbers of receipts before it; it never fails
  -- otherwise.
  pub play_answers :
      (s : Engine)
      → SdkLaws sdk
      → IsSound sdk config s
      → Answer s (play sdk config input now seed s)
  play_answers s laws v = elim (Option-cases (sdk.assert_client_seed input.client_seed)) [
    | inr (message, a) ↦ rw (play-rejected s message a) (bad_seed message a)
    | inl a ↦
        let (e, s', q, o, v', rules, receipts, deposits) =
          ensure_epoch-IsSound sdk config now seed s v in
        rw (play-entered s s' e a q) (play_in_answers e s s' laws a receipts deposits o v')
  ]
