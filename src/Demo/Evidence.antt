-- ===== src/Demo/Evidence.antt =====
-- demo/server.mjs: `proofFor`, the evidence that the demo casino shows for one spin. It recomputes every
-- check from what the server answers; `none` stands for a check that waits (null).
pub mod Green
pub mod Page
use foreseer.Base.{
  ℕ, String, Bool, true, false, ◌&&◌, Option, none, some, List, [], ◌∷◌, map, is_some, ◌==◌, nat_eq,
  string_eq, if◌then◌else◌,
}
use foreseer.Base.Text.{decimal}
use foreseer.Base.Exec.{Result, ok, err, api, thrown, Exec, pure, gets, or_raise, ◌>>=◌, ◌>>◌}
use foreseer.Json.{Value, undefined, string}
use foreseer.Sdk.{Bytes, Sdk, Receipt, Outcome}
use foreseer.Engine.{Engine, Config, Proof}
use foreseer.Api.Rules.{fetch_rule}
use foreseer.Api.Pages.{ReceiptJson, EpochJson, Current, Health, current, by_id, receipts, proof}
use foreseer.Demo.Client.{to_option, api_raw, client_domain, receipts_of, entry_in}

pub record Signer : Type 0 where
  pub recovered : Option String
  pub expected : String
  pub signed_by_tee : Bool

pub record Commitment : Type 0 where
  pub server_seed : Option String
  pub seed_hash : Option String
  pub seed_ok : Option Bool

pub record OutcomeRows : Type 0 where
  pub recomputed : Option Outcome
  pub rule_matches : Option Bool
  pub outcome_ok : Option Bool

pub record MerkleRows : Type 0 where
  pub merkle_root : Option String
  pub path : Option (List String)
  pub receipt_count : Option ℕ
  pub merkle_ok : Option Bool

pub record Evidence : Type 0 where
  pub is_closed : Bool
  pub entry : ReceiptJson
  pub digest : String
  pub signer : Signer
  pub commitment : Commitment
  pub outcome : OutcomeRows
  pub merkle : MerkleRows
  pub closes_at : Option ℕ

-- JSON.stringify of two lists of numbers, compared.
abbrev pub same_draws : List ℕ → List ℕ → Bool
same_draws [] [] = true
same_draws [] (y ∷ ys) = false
same_draws (x ∷ xs) [] = false
same_draws (x ∷ xs) (y ∷ ys) = x == y && same_draws xs ys

abbrev pub same_bool : Bool → Bool → Bool
same_bool true b = b
same_bool false true = false
same_bool false false = true

-- recovered === health.teeId, where `recovered` is null when recoverSigner throws.
abbrev pub signer_of : Option String → String → Signer
signer_of none expected = record { recovered = none; expected = expected; signed_by_tee = false }
signer_of (some a) expected = record {
  recovered = some a;
  expected = expected;
  signed_by_tee = a == expected;
}

abbrev pub outcome_waits : OutcomeRows
outcome_waits = record { recomputed = none; rule_matches = none; outcome_ok = none }

-- out.closesAt, when the epoch is the current one.
abbrev pub closes_at_of : ℕ → Option Current → Option ℕ
closes_at_of epoch_id none = none
closes_at_of epoch_id (some c) = if c.epoch_id == epoch_id then some c.closes_at else none

module _ (sdk : Sdk) (config : Config) (health : Health) where
  abbrev pub start_evidence : EpochJson → ReceiptJson → Evidence
  start_evidence epoch entry =
      let digest = sdk.receipt_digest entry.receipt (client_domain health.chain_id) in
      record {
        is_closed = is_some epoch.closed_at;
        entry = entry;
        digest = sdk.to_hex digest;
        signer = signer_of (sdk.recover_signer digest entry.signature) health.tee_id;
        commitment = record { server_seed = none; seed_hash = none; seed_ok = none };
        outcome = outcome_waits;
        merkle = record {
          merkle_root = epoch.merkle_root;
          path = none;
          receipt_count = epoch.receipt_count;
          merkle_ok = none;
        };
        closes_at = none;
      }

  -- The block `if (ruleRes.status === 200)`.
  abbrev pub recomputed : Option Value → String → Receipt → OutcomeRows
  recomputed none seed receipt = outcome_waits
  recomputed (some rule) seed receipt =
      let matches = sdk.rule_hash rule == receipt.rule_hash in
      let redo = sdk.resolve_outcome rule (sdk.to_bytes seed) receipt.client_seed receipt.nonce in
      record {
        recomputed = some redo;
        rule_matches = some matches;
        outcome_ok = some (
            matches
            && same_draws redo.draws receipt.draws
            && same_bool redo.win receipt.win
            && redo.payout_bp == receipt.payout_bp);
      }

  -- The block `if (proofRes.status === 200)`; toBytes(null) throws.
  abbrev pub proven : Option Proof → Evidence → Exec Engine Evidence
  proven none out = pure out
  proven (some p) out = do
    root ← or_raise p.merkle_root thrown
    pure (record out {
      merkle = record out.merkle {
        merkle_root = some root;
        path = some p.proof;
        merkle_ok = some (
            sdk.verify_merkle_proof
              (sdk.receipt_digest out.entry.receipt (client_domain health.chain_id))
              (map sdk.to_bytes p.proof) (sdk.to_bytes root));
      };
    })

  -- The checks of a closed epoch.
  abbrev pub evidence_closed : ℕ → ℕ → Option String → Evidence → Exec Engine Evidence
  evidence_closed epoch_id bet_id server_seed out = do
    seed ← or_raise server_seed thrown
    let receipt = out.entry.receipt
    rule ← gets (λ s. to_option (fetch_rule sdk s.db receipt.rule_hash))
    path ← api_raw (proof sdk config (decimal epoch_id) (decimal bet_id))
    proven path (record out {
      commitment = record {
        server_seed = some seed;
        seed_hash = some (sdk.seed_commit (sdk.to_bytes seed));
        seed_ok = some (sdk.verify_commit seed receipt.seed_commit);
      };
      outcome = recomputed rule seed receipt;
    })

  abbrev pub evidence_open : ℕ → ℕ → Bytes → Evidence → Exec Engine Evidence
  evidence_open epoch_id now fresh out = do
    shown ← api_raw (current sdk config now fresh)
    pure (record out { closes_at = closes_at_of epoch_id shown })

  -- `now` and `fresh` are the server's clock and the seed that it draws for a new epoch.
  unfoldable pub evidence_for : ℕ → ℕ → ℕ → Bytes → Exec Engine Evidence
  evidence_for epoch_id bet_id now fresh = do
    found ← api_raw (by_id sdk config (decimal epoch_id))
    epoch ← or_raise found (api 404 "unknown epoch")
    page ← api_raw (receipts sdk config (decimal epoch_id) undefined (string "1000") undefined)
    entry ← or_raise (entry_in bet_id (receipts_of page)) (api 404 "unknown bet in this epoch")
    let out = start_evidence epoch entry
    elim (is_some epoch.closed_at) [
      | true ↦ evidence_closed epoch_id bet_id epoch.server_seed out
      | false ↦ evidence_open epoch_id now fresh out
    ]
