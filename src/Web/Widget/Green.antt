-- ===== src/Web/Widget/Green.antt =====
-- The verification page agrees with the server: what it loads for a stored receipt of a closed epoch
-- passes all four checks.
use foreseer.Base.{
  ℕ, ◌<◌, ◌≡◌, ◌≢◌, refl, sym, subst, ◌∙◌, String, true, Option, none, some, arith, find, map, ◌==◌,
  nat_eq, string_eq, text_iff,
}
use foreseer.Base.Exec.{ok}
use foreseer.Sdk.{Sdk, SdkLaws, Verifier, AcceptsSigner}
use foreseer.Db.{EpochRow, ReceiptRow, RuleRow, epoch_by_id, rule_by_hash}
use foreseer.Engine.{Engine, Config, Proof, row_to_receipt, receipt_rows, proof_for}
use foreseer.Engine.Sound.{IsSound}
use foreseer.Engine.Proofs.{proof_for-Leads}
use foreseer.Engine.Proofs.Root.{proof_for-merkle_root}
use foreseer.Api.Params.Decimal.{int_param-decimal}
use foreseer.Api.Rules.{is_hash, load_rule, fetch_rule}
use foreseer.Api.Pages.{receipt_json, epoch_json, health, proof}
use foreseer.Api.Verify.{is_signer, signature_ok, digest_of}
use foreseer.Api.Verify.Green.{
  row-epoch, row-Sound, same-seeds, signature-green, commit-green, outcome-green,
}
use foreseer.Demo.Client.{client_domain}
use foreseer.Demo.Client.Found.{by_id-found, receipts-found, entry_in-found}
use foreseer.Web.Widget.{
  Report, Loaded, run_checks, load_from_server, expected_of, form_input, load_and_check,
}

module _ (sdk : Sdk) (config : Config) (treasury : Option String) (s : Engine) (e : EpochRow)
    (row : ReceiptRow) (i b : ℕ) where
  abbrev loaded : RuleRow → Proof → Loaded
  loaded rule p = record {
    entry = receipt_json (row_to_receipt sdk row e.seed_commit) row.signature;
    rule = rule.rule_json;
    server_seed = e.server_seed;
    seed_commit = e.seed_commit;
    merkle_root = e.merkle_root;
    path = p.proof;
    tee_id = config.tee_id;
  }

  load_from_server-known :
      (s' : Engine) (rule : RuleRow) (p : Proof) (t : ℕ)
      → IsSound sdk config s
      → epoch_by_id i s.db.epochs ≡ some e
      → e.closed_at ≡ some t
      → find (λ r. r.bet_id == b) (receipt_rows i none s.db) ≡ some row
      → b < 1000
      → is_hash row.rule_hash ≡ true
      → rule_by_hash row.rule_hash s.db.rules ≡ some rule
      → proof_for sdk config i b s ≡ (ok p, s')
      → s'.db ≡ s.db
      → load_from_server sdk config (health config treasury) i b s ≡ (ok (loaded rule p), s')
  unfolding load_from_server fetch_rule load_rule proof epoch_json
  load_from_server-known s' rule p t v f c r l h g q same =
      let found = entry_in-found sdk config s e i b row v.numbered r l in
      ground (
        arith,
        by_id-found sdk config s e i b f,
        receipts-found sdk config s e i b f,
        int_param-decimal i,
        int_param-decimal b,
      )

  abbrev report : RuleRow → Proof → Verifier → Report
  report rule p verify_signature =
      run_checks sdk verify_signature (form_input config.domain.chain_id (loaded rule p))

  load_and_check-known :
      (verify_signature : Verifier) (s' : Engine) (rule : RuleRow) (p : Proof)
      → load_from_server sdk config (health config treasury) i b s ≡ (ok (loaded rule p), s')
      → load_and_check sdk verify_signature config
          (health config treasury)
          config.domain.chain_id
          i
          b
          s
        ≡ (ok (report rule p verify_signature), s')
  unfolding load_and_check
  load_and_check-known verify_signature s' rule p h = ground arith

  is_signer-some : (a : String) (o : Option String) → is_signer a o ≡ true → o ≡ some a
  is_signer-some a none h = absurd (ground arith)
  is_signer-some a (some b) h = ground (arith, text_iff b a)

  expected_of-same : (a : String) → a ≢ "" → expected_of a ≡ some a
  expected_of-same a h = ground (arith, text_iff a "", h)

  report-green :
      (verify_signature : Verifier) (rule : RuleRow) (p : Proof) (root : String)
      → AcceptsSigner sdk verify_signature
      → config.domain ≡ client_domain config.domain.chain_id
      → config.tee_id ≢ ""
      → e.merkle_root ≡ some root
      → signature_ok sdk config row e ≡ true
      → sdk.verify_commit e.server_seed e.seed_commit ≡ true
      → sdk.verify_outcome (row_to_receipt sdk row e.seed_commit) rule.rule_json e.server_seed
        ≡ true
      → sdk.verify_merkle_proof
          (digest_of sdk config row e)
          (map sdk.to_bytes p.proof)
          (sdk.to_bytes root)
        ≡ true
      → (report rule p verify_signature).all_green ≡ true
  unfolding run_checks form_input
  report-green verify_signature rule p root accepts domain named anchored sg cm oc mk =
      let expected = expected_of-same config.tee_id named in
      let receipt = row_to_receipt sdk row e.seed_commit in
      let signer =
        subst
          (λ d.
            sdk.recover_signer (sdk.receipt_digest receipt d) row.signature ≡ some config.tee_id)
          domain (is_signer-some config.tee_id _ sg) in
      let merkle =
        subst
          (λ d.
            sdk.verify_merkle_proof (sdk.receipt_digest receipt d) (map sdk.to_bytes p.proof)
              (sdk.to_bytes root)
            ≡ true)
          domain mk in
      rw (expected, cm, oc, anchored)
        (rw
          (
            accepts.accepts (record { receipt = receipt; signature = row.signature })
                (client_domain config.domain.chain_id) config.tee_id signer,
            merkle,
          )
          refl)

  -- For a stored receipt with a bet id below 1000, in a closed epoch of a sound server that signs
  -- with its own, not empty, key address in the page's domain, and whose rule hash has the form of
  -- a hash, the verification page loads its inputs and reports all four checks green, if its
  -- signature check accepts the recovered signer.
  pub load_and_check-all_green :
      (verify_signature : Verifier) (t : ℕ)
      → SdkLaws sdk
      → AcceptsSigner sdk verify_signature
      → config.tee_id ≡ sdk.address_of_private_key config.key
      → config.tee_id ≢ ""
      → config.domain ≡ client_domain config.domain.chain_id
      → IsSound sdk config s
      → epoch_by_id i s.db.epochs ≡ some e
      → e.closed_at ≡ some t
      → find (λ r. r.bet_id == b) (receipt_rows i none s.db) ≡ some row
      → b < 1000
      → is_hash row.rule_hash ≡ true
      → (report : Report) × (s' : Engine) × (load_and_check sdk verify_signature config
            (health config treasury)
            config.domain.chain_id
            i
            b
            s
          ≡ (ok report, s'))
        × (report.all_green ≡ true)
  load_and_check-all_green verify_signature t laws accepts own named domain v f c r l h =
      let sound = row-Sound sdk config s e row i b v r in
      let (commits, seeds) =
        same-seeds sdk config s e row i b sound (row-epoch sdk config s e row i b v r) f in
      let (p, s', served, leads, db, v') = proof_for-Leads sdk config s e row i b t laws v f c r in
      (
        report sound.rule p verify_signature,
        s',
        load_and_check-known verify_signature s' sound.rule p
            (load_from_server-known s' sound.rule p t v f c r l h sound.registered served db),
        report-green verify_signature sound.rule p leads.root accepts domain named
            (sym (proof_for-merkle_root sdk config s s' e i b p f served) ∙ leads.anchored)
            (signature-green sdk config s e row i b sound laws own commits)
            (commit-green sdk config s e row i b laws v f)
            (outcome-green sdk config s e row i b sound laws v seeds) leads.accepted,
      )
