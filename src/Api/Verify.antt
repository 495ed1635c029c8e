-- ===== src/Api/Verify.antt =====
-- VerifyController: the four checks of FORESEER-SPEC section 8 on a stored receipt.
pub mod Stored
pub mod Green
use foreseer.Base.{
  ℕ, String, Bool, true, false, ◌&&◌, Option, none, some, map, find, ◌==◌, nat_eq, string_eq,
}
use foreseer.Base.Exec.{Exec, Result, ok, err, api, thrown, pure, lift, gets, or_raise, ◌>>=◌, ◌>>◌}
use foreseer.Json.{Value}
use foreseer.Sdk.{Bytes, Sdk, Receipt}
use foreseer.Db.{EpochRow, ReceiptRow, epoch_by_id}
use foreseer.Engine.{Engine, Config, row_to_receipt, receipt_rows, proof_for}
use foreseer.Api.Rules.{load_rule}

pub record Checks : Type 0 where
  pub signature : Bool
  pub commit : Bool
  pub outcome : Bool
  pub merkle : Bool

-- Before the close there is the signature check alone.
pub data Verdict : Type 0 where
  still_open : (signature : Bool) → Verdict
  checked : (checks : Checks) → (all_green : Bool) → Verdict

-- `recoverSigner(...) === teeId`, and false where it throws.
abbrev pub is_signer : String → Option String → Bool
is_signer tee_id none = false
is_signer tee_id (some signer) = signer == tee_id

-- `Object.values(checks).every(Boolean)`.
abbrev pub all_green : Checks → Bool
all_green c = c.signature && c.commit && c.outcome && c.merkle

module _ (sdk : Sdk) (config : Config) where
  abbrev pub digest_of : ReceiptRow → EpochRow → Bytes
  digest_of row epoch = sdk.receipt_digest (row_to_receipt sdk row epoch.seed_commit) config.domain

  abbrev pub signature_ok : ReceiptRow → EpochRow → Bool
  signature_ok row epoch =
      is_signer config.tee_id (sdk.recover_signer (digest_of row epoch) row.signature)

  -- The checks of a closed epoch.
  abbrev pub check_closed : ReceiptRow → EpochRow → ℕ → ℕ → Exec Engine Verdict
  check_closed row epoch epoch_id bet_id = do
    let receipt = row_to_receipt sdk row epoch.seed_commit
    let seed = epoch.server_seed
    loaded ← gets (λ s. load_rule s.db row.rule_hash)
    rule ← lift loaded
    proof ← proof_for sdk config epoch_id bet_id
    root ← or_raise proof.merkle_root thrown
    let checks : Checks = record {
      signature = signature_ok row epoch;
      commit = sdk.verify_commit seed receipt.seed_commit;
      outcome = sdk.verify_outcome receipt rule seed;
      merkle =
          sdk.verify_merkle_proof (digest_of row epoch) (map sdk.to_bytes proof.proof)
            (sdk.to_bytes root);
    }
    pure (checked checks (all_green checks))

  abbrev pub check_receipt : Option ℕ → ReceiptRow → EpochRow → ℕ → ℕ → Exec Engine Verdict
  check_receipt none row epoch epoch_id bet_id = pure (still_open (signature_ok row epoch))
  check_receipt (some t) row epoch epoch_id bet_id = check_closed row epoch epoch_id bet_id

  -- GET /verify/:epochId/:betId.
  unfoldable pub verify : ℕ → ℕ → Exec Engine Verdict
  unfolding receipt_rows
  verify epoch_id bet_id = do
    found ← gets (λ s. epoch_by_id epoch_id s.db.epochs)
    epoch ← or_raise found (api 404 "unknown epoch")
    rows ← gets (λ s. receipt_rows epoch_id none s.db)
    row ← or_raise (find (λ r. r.bet_id == bet_id) rows) (api 404 "unknown betId")
    check_receipt epoch.closed_at row epoch epoch_id bet_id
