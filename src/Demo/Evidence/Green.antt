-- ===== src/Demo/Evidence/Green.antt =====
-- The evidence that the demo casino recomputes for a stored receipt of a closed epoch is all green.
use foreseer.Base.{
  ℕ, ◌<◌, ◌≡◌, refl, ap, subst, ◌∙◌, String, Bool, true, false, Option, none, some, List, [], ◌∷◌,
  arith, find, map, ◌==◌, nat_eq, string_eq, text_iff,
}
use foreseer.Base.Exec.{ok}
use foreseer.Sdk.{Bytes, Sdk, SdkLaws}
use foreseer.Db.{EpochRow, ReceiptRow, RuleRow, epoch_by_id, rule_by_hash}
use foreseer.Engine.{Engine, Config, Proof, row_to_receipt, receipt_rows, proof_for}
use foreseer.Engine.Sound.{IsSound}
use foreseer.Engine.Proofs.{proof_for-Leads}
use foreseer.Api.Params.Decimal.{int_param-decimal}
use foreseer.Api.Rules.{is_hash, load_rule, fetch_rule, rule_by_hash-RulesAreHashed}
use foreseer.Api.Pages.{ReceiptJson, receipt_json, epoch_json, health, proof}
use foreseer.Api.Verify.{is_signer, signature_ok, digest_of}
use foreseer.Api.Verify.Green.{row-epoch, row-Sound, same-seeds, signature-green, commit-green}
use foreseer.Demo.Client.{client_domain}
use foreseer.Demo.Client.Found.{by_id-found, receipts-found, entry_in-found}
use foreseer.Demo.Evidence.{
  Evidence, OutcomeRows, signer_of, same_draws, same_bool, start_evidence, recomputed,
  evidence_closed, evidence_for,
}

-- Every check is made, and holds.
pub AllGreen : Evidence → Type 0
AllGreen out =
    (out.is_closed ≡ true)
    × (out.signer.signed_by_tee ≡ true)
    × (out.commitment.seed_ok ≡ some true)
    × (out.outcome.rule_matches ≡ some true)
    × (out.outcome.outcome_ok ≡ some true)
    × (out.merkle.merkle_ok ≡ some true)

same_draws_refl : (xs : List ℕ) → same_draws xs xs ≡ true
same_draws_refl [] = refl
same_draws_refl (x ∷ xs) = ground (arith, same_draws_refl xs)

same_bool_refl : (b : Bool) → same_bool b b ≡ true
same_bool_refl true = refl
same_bool_refl false = refl

signer_of-is_signer :
    (a : Option String) (expected : String)
    → is_signer expected a ≡ true
    → (signer_of a expected).signed_by_tee ≡ true
signer_of-is_signer none expected h = h
signer_of-is_signer (some a) expected h = h

module _ (sdk : Sdk) (config : Config) (treasury : Option String) (s : Engine) (e : EpochRow)
    (row : ReceiptRow) (i b : ℕ) where
  abbrev entry : ReceiptJson
  entry = receipt_json (row_to_receipt sdk row e.seed_commit) row.signature

  abbrev out0 : Evidence
  out0 = start_evidence sdk config (health config treasury) (epoch_json sdk e) entry

  -- The calls that the program makes, when the server knows the bet.
  evidence_for-found :
      (now : ℕ) (fresh : Bytes) (t : ℕ)
      → IsSound sdk config s
      → epoch_by_id i s.db.epochs ≡ some e
      → e.closed_at ≡ some t
      → find (λ r. r.bet_id == b) (receipt_rows i none s.db) ≡ some row
      → b < 1000
      → evidence_for sdk config (health config treasury) i b now fresh s
        ≡ evidence_closed sdk config (health config treasury) i b (some e.server_seed) out0 s
  unfolding evidence_for epoch_json
  evidence_for-found now fresh t v f c r l =
      let found = entry_in-found sdk config s e i b row v.numbered r l in
      ground (arith, by_id-found sdk config s e i b f, receipts-found sdk config s e i b f)

  abbrev rows : RuleRow → OutcomeRows
  rows rule =
      recomputed sdk config (health config treasury) (some rule.rule_json) e.server_seed
        entry.receipt

  rows-green :
      (rule : RuleRow)
      → sdk.rule_hash rule.rule_json ≡ row.rule_hash
      → sdk.resolve_outcome rule.rule_json (sdk.to_bytes e.server_seed) row.client_seed row.nonce
        ≡ record { draws = row.draws; win = row.win == 1; payout_bp = row.payout_bp }
      → ((rows rule).rule_matches ≡ some true) × ((rows rule).outcome_ok ≡ some true)
  rows-green rule h d =
      let same = (text_iff row.rule_hash row.rule_hash).1 refl in
      rw (h, d, same, same_draws_refl row.draws, same_bool_refl (row.win == 1)) (refl, ground arith)

  -- The evidence that the program ends with, from the rule, the proof and its root.
  abbrev out_of : RuleRow → Proof → String → Evidence
  out_of rule p root = record out0 {
    commitment = record {
      server_seed = some e.server_seed;
      seed_hash = some (sdk.seed_commit (sdk.to_bytes e.server_seed));
      seed_ok = some (sdk.verify_commit e.server_seed e.seed_commit);
    };
    outcome = rows rule;
    merkle = record out0.merkle {
      merkle_root = some root;
      path = some p.proof;
      merkle_ok = some (
          sdk.verify_merkle_proof
            (sdk.receipt_digest entry.receipt (client_domain config.domain.chain_id))
            (map sdk.to_bytes p.proof) (sdk.to_bytes root));
    };
  }

  evidence_closed-known :
      (s' : Engine) (rule : RuleRow) (p : Proof) (root : String)
      → is_hash row.rule_hash ≡ true
      → rule_by_hash row.rule_hash s.db.rules ≡ some rule
      → proof_for sdk config i b s ≡ (ok p, s')
      → p.merkle_root ≡ some root
      → evidence_closed sdk config (health config treasury) i b (some e.server_seed) out0 s
        ≡ (ok (out_of rule p root), s')
  unfolding fetch_rule load_rule proof
  evidence_closed-known s' rule p root h r q a =
      ground (arith, int_param-decimal i, int_param-decimal b)

  out_of-AllGreen :
      (rule : RuleRow) (p : Proof) (root : String) (t : ℕ)
      → config.domain ≡ client_domain config.domain.chain_id
      → e.closed_at ≡ some t
      → signature_ok sdk config row e ≡ true
      → sdk.verify_commit e.server_seed e.seed_commit ≡ true
      → sdk.rule_hash rule.rule_json ≡ row.rule_hash
      → sdk.resolve_outcome rule.rule_json (sdk.to_bytes e.server_seed) row.client_seed row.nonce
        ≡ record { draws = row.draws; win = row.win == 1; payout_bp = row.payout_bp }
      → sdk.verify_merkle_proof
          (digest_of sdk config row e)
          (map sdk.to_bytes p.proof)
          (sdk.to_bytes root)
        ≡ true
      → AllGreen (out_of rule p root)
  unfolding AllGreen epoch_json
  out_of-AllGreen rule p root t own c sg cm h d mk =
      let (matches, outcome) = rows-green rule h d in
      (
        ground arith,
        signer_of-is_signer (sdk.recover_signer _ row.signature) config.tee_id (
            subst
              (λ d.
                is_signer config.tee_id (
                  sdk.recover_signer (sdk.receipt_digest (row_to_receipt sdk row e.seed_commit) d)
                    row.signature)
                ≡ true)
              own sg),
        ap some cm,
        matches,
        outcome,
        ap some (
            subst
              (λ d.
                sdk.verify_merkle_proof
                  (sdk.receipt_digest (row_to_receipt sdk row e.seed_commit) d)
                  (map sdk.to_bytes p.proof) (sdk.to_bytes root)
                ≡ true)
              own mk),
      )

  -- For a stored receipt with a bet id below 1000, in a closed epoch of a sound server that signs
  -- with its own key in the casino's domain, and whose rule hash has the form of a hash, the demo
  -- casino's proof panel gets its evidence: every check is made and holds, and the receipt shown
  -- is the stored one.
  pub evidence_for-AllGreen :
      (now : ℕ) (fresh : Bytes) (t : ℕ)
      → SdkLaws sdk
      → config.tee_id ≡ sdk.address_of_private_key config.key
      → config.domain ≡ client_domain config.domain.chain_id
      → IsSound sdk config s
      → epoch_by_id i s.db.epochs ≡ some e
      → e.closed_at ≡ some t
      → find (λ r. r.bet_id == b) (receipt_rows i none s.db) ≡ some row
      → b < 1000
      → is_hash row.rule_hash ≡ true
      → (out : Evidence) × (s' : Engine) × (evidence_for sdk config
            (health config treasury)
            i
            b
            now
            fresh
            s
          ≡ (ok out, s'))
        × AllGreen out
        × (out.entry ≡ entry)
  evidence_for-AllGreen now fresh t laws own domain v f c r l hash =
      let sound = row-Sound sdk config s e row i b v r in
      let (commits, seeds) =
        same-seeds sdk config s e row i b sound (row-epoch sdk config s e row i b v r) f in
      let (p, s', served, leads, db, v') = proof_for-Leads sdk config s e row i b t laws v f c r in
      let hashed =
        rule_by_hash-RulesAreHashed sdk row.rule_hash s.db.rules sound.rule v.hashed
          sound.registered in
      (
        out_of sound.rule p leads.root,
        s',
        evidence_for-found now fresh t v f c r l
            ∙ evidence_closed-known s' sound.rule p leads.root hash sound.registered served
                leads.anchored,
        out_of-AllGreen sound.rule p leads.root t domain c
            (signature-green sdk config s e row i b sound laws own commits)
            (commit-green sdk config s e row i b laws v f) hashed
            (subst
              (λ seed.
                sdk.resolve_outcome sound.rule.rule_json (sdk.to_bytes seed) row.client_seed
                  row.nonce
                ≡ record { draws = row.draws; win = row.win == 1; payout_bp = row.payout_bp })
              seeds sound.derived)
            leads.accepted,
        refl,
      )
