-- ===== src/Api/Verify/Green.antt =====
-- The fairness of the server: a stored receipt of a closed epoch passes every check.
use foreseer.Base.{
  ℕ, ◌≡◌, refl, sym, ◌∙◌, ap, String, true, Option, none, some, arith, find, ◌==◌, nat_eq,
  string_eq, text_iff, map, get_elem?, ◌⊎◌, inl, inr, Option-cases,
}
use foreseer.Base.Exec.{ok, Result-cases}
use foreseer.Sdk.{Sdk, SdkLaws}
use foreseer.Db.{EpochRow, ReceiptRow, RuleRow, epoch_by_id, rule_by_hash}
use foreseer.Db.Receipts.{
  oldest_first, order_by_bet-oldest_first, oldest_first-AreConsecutive, get_elem?-AreConsecutive,
}
use foreseer.Engine.{Engine, Config, Proof, row_to_receipt, receipt_rows, proof_for}
use foreseer.Engine.Sound.{IsSound, ReceiptIsSound}
use foreseer.Engine.Proofs.{rows_at, proof_for-Leads}
use foreseer.Engine.Answers.{proof_for-IsSound, proof_for-same}
use foreseer.Api.Rules.{load_rule, rule_by_hash-RulesAreHashed}
use foreseer.Api.Verify.Stored.{seeds_of-found, EpochsAreCommitted-found, stored-Sound}
use foreseer.Api.Verify.{
  check_closed, check_receipt, Checks, checked, digest_of, signature_ok, verify,
}

abbrev pub green : Checks
green = record { signature = true; commit = true; outcome = true; merkle = true }

module _ (sdk : Sdk) (config : Config) (s : Engine) (e : EpochRow) (row : ReceiptRow)
    (i b : ℕ) where
  verify-checked :
      (s' : Engine) (rule : RuleRow) (p : Proof) (t : ℕ) (root : String)
      → epoch_by_id i s.db.epochs ≡ some e
      → find (λ r. r.bet_id == b) (receipt_rows i none s.db) ≡ some row
      → e.closed_at ≡ some t
      → rule_by_hash row.rule_hash s.db.rules ≡ some rule
      → proof_for sdk config i b s ≡ (ok p, s')
      → p.merkle_root ≡ some root
      → signature_ok sdk config row e ≡ true
      → sdk.verify_commit e.server_seed e.seed_commit ≡ true
      → sdk.verify_outcome (row_to_receipt sdk row e.seed_commit) rule.rule_json e.server_seed
        ≡ true
      → sdk.verify_merkle_proof
          (digest_of sdk config row e)
          (map sdk.to_bytes p.proof)
          (sdk.to_bytes root)
        ≡ true
      → verify sdk config i b s ≡ (ok (checked green true), s')
  unfolding verify load_rule
  verify-checked s' rule p t root f r c l q a sg cm oc mk = ground arith

  pub row-epoch :
      IsSound sdk config s
      → find (λ r. r.bet_id == b) (receipt_rows i none s.db) ≡ some row
      → row.epoch_id ≡ i
  unfolding receipt_rows
  row-epoch v r =
      let rs = s.db.receipts in
      let place =
        ap (λ rows. get_elem? rows b) (sym (order_by_bet-oldest_first i rs v.numbered))
        ∙ sym (rows_at i b rs v.numbered)
        ∙ r in
      (get_elem?-AreConsecutive i 0 b (oldest_first i rs) row
        (oldest_first-AreConsecutive i rs v.numbered) place).0

  pub row-Sound :
      IsSound sdk config s
      → find (λ r. r.bet_id == b) (receipt_rows i none s.db) ≡ some row
      → ReceiptIsSound sdk config s.db.epochs s.db.rules row
  unfolding receipt_rows
  row-Sound v r = stored-Sound sdk config s.db.epochs s.db.rules i b s.db.receipts row v.receipts r

  pub same-seeds :
      (sound : ReceiptIsSound sdk config s.db.epochs s.db.rules row)
      → row.epoch_id ≡ i
      → epoch_by_id i s.db.epochs ≡ some e
      → (sound.commit ≡ e.seed_commit) × (sound.seed ≡ e.server_seed)
  same-seeds sound id f = ground (arith, sound.seeds, seeds_of-found i s.db.epochs e f)

  pub signature-green :
      (sound : ReceiptIsSound sdk config s.db.epochs s.db.rules row)
      → SdkLaws sdk
      → config.tee_id ≡ sdk.address_of_private_key config.key
      → sound.commit ≡ e.seed_commit
      → signature_ok sdk config row e ≡ true
  signature-green sound laws own q =
      let signed =
        sound.signed
        ∙ ap (λ c. (sdk.sign_receipt (row_to_receipt sdk row c) config.domain config.key).signature)
            q in
      rw
        (
          signed,
          laws.signer_of_signed (row_to_receipt sdk row e.seed_commit) config.domain config.key,
          own,
        )
        ((text_iff _ _).1 refl)

  pub commit-green :
      SdkLaws sdk
      → IsSound sdk config s
      → epoch_by_id i s.db.epochs ≡ some e
      → sdk.verify_commit e.server_seed e.seed_commit ≡ true
  commit-green laws v f =
      let made = EpochsAreCommitted-found sdk config i s.db.epochs e f v.committed in
      rw (made.hex, made.commit) (laws.commit_of_seed made.seed)

  pub outcome-green :
      (sound : ReceiptIsSound sdk config s.db.epochs s.db.rules row)
      → SdkLaws sdk
      → IsSound sdk config s
      → sound.seed ≡ e.server_seed
      → sdk.verify_outcome (row_to_receipt sdk row e.seed_commit) sound.rule.rule_json e.server_seed
        ≡ true
  outcome-green sound laws v q =
      laws.outcome_of_seed (row_to_receipt sdk row e.seed_commit) sound.rule.rule_json e.server_seed
        (rule_by_hash-RulesAreHashed sdk row.rule_hash s.db.rules sound.rule v.hashed
          sound.registered)
        (rw (← q) sound.derived)

  -- In a sound engine that signs with its own key, the verification of a stored receipt of a closed
  -- epoch succeeds, and signature, commitment, outcome and Merkle proof are all green.
  pub verify_all_green :
      (t : ℕ)
      → SdkLaws sdk
      → config.tee_id ≡ sdk.address_of_private_key config.key
      → IsSound sdk config s
      → epoch_by_id i s.db.epochs ≡ some e
      → e.closed_at ≡ some t
      → find (λ r. r.bet_id == b) (receipt_rows i none s.db) ≡ some row
      → (s' : Engine) × (verify sdk config i b s ≡ (ok (checked green true), s'))
        × IsSound sdk config s'
  verify_all_green t laws own v f c r =
      let sound = row-Sound v r in
      let (commits, seeds) = same-seeds sound (row-epoch v r) f in
      let (p, s', served, leads, db, v') = proof_for-Leads sdk config s e row i b t laws v f c r in
      (
        s',
        verify-checked s' sound.rule p t leads.root f r c sound.registered served leads.anchored
            (signature-green sound laws own commits) (commit-green laws v f)
            (outcome-green sound laws v seeds) leads.accepted,
        v',
      )

module _ (sdk : Sdk) (config : Config) (s : Engine) (i b : ℕ) where
  check_closed-state :
      (row : ReceiptRow) (e : EpochRow)
      → ((check_closed sdk config row e i b s).1 ≡ s)
        ⊎ ((check_closed sdk config row e i b s).1 ≡ (proof_for sdk config i b s).1)
  check_closed-state row e = elim (Result-cases (load_rule s.db row.rule_hash)) [
    | inl (x, q) ↦ inl (ground arith)
    | inr (rule, q) ↦ inr (ground arith)
  ]

  check_closed-IsSound :
      (row : ReceiptRow) (e : EpochRow)
      → IsSound sdk config s
      → IsSound sdk config (check_closed sdk config row e i b s).1
  check_closed-IsSound row e v = elim (check_closed-state row e) [
    | inl q ↦ rw q v
    | inr q ↦ rw q (proof_for-IsSound sdk config s i b v)
  ]

  check_receipt-IsSound :
      (o : Option ℕ) (row : ReceiptRow) (e : EpochRow)
      → IsSound sdk config s
      → IsSound sdk config (check_receipt sdk config o row e i b s).1
  check_receipt-IsSound none row e v = v
  check_receipt-IsSound (some t) row e v = check_closed-IsSound row e v

  verify_cases :
      ((verify sdk config i b s).1 ≡ s)
      ⊎ ((e : EpochRow) × (row : ReceiptRow) × (verify sdk config i b s
            ≡ check_receipt sdk config e.closed_at row e i b s))
  unfolding verify
  verify_cases = elim (Option-cases (epoch_by_id i s.db.epochs)) [
    | inl f ↦ inl (ground arith)
    | inr (e, f) ↦ elim (Option-cases (find (λ r. r.bet_id == b) (receipt_rows i none s.db))) [
      | inl q ↦ inl (ground arith)
      | inr (row, q) ↦ inr (e, row, ground arith)
    ]
  ]

  -- A verification keeps the engine sound, whatever it answers.
  pub verify-IsSound : IsSound sdk config s → IsSound sdk config (verify sdk config i b s).1
  verify-IsSound v = elim verify_cases [
    | inl q ↦ rw q v
    | inr (e, row, q) ↦ rw q (check_receipt-IsSound e.closed_at row e v)
  ]

  check_receipt-same :
      (o : Option ℕ) (row : ReceiptRow) (e : EpochRow)
      → IsSound sdk config s
      → (check_receipt sdk config o row e i b s).1.db ≡ s.db
  check_receipt-same none row e v = refl
  check_receipt-same (some t) row e v = elim (check_closed-state row e) [
    | inl q ↦ rw q refl
    | inr q ↦ rw q (proof_for-same sdk config s i b v)
  ]

  -- A verification writes no table.
  pub verify-same : IsSound sdk config s → (verify sdk config i b s).1.db ≡ s.db
  verify-same v = elim verify_cases [
    | inl q ↦ rw q refl
    | inr (e, row, q) ↦ rw q (check_receipt-same e.closed_at row e v)
  ]
