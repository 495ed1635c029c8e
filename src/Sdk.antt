-- ===== src/Sdk.antt =====
-- The package foreseer-sdk (a git submodule, packages/ts) as server/src/engine.ts and
-- server/src/controllers.ts use it: its record types, its functions as a parameter, and the
-- documented behaviour that the server relies on as named hypotheses.
pub mod Toy
use foreseer.Base.{ℕ, ◌≡◌, String, Bool, true, Option, some, List, get_elem?}
use foreseer.Json.{Value}

-- Uint8Array.
abbrev pub Bytes : Type 0
Bytes = List ℕ

pub record Domain : Type 0 where
  pub name : String
  pub version : String
  pub chain_id : ℕ

pub record Receipt : Type 0 where
  pub spec_version : ℕ
  pub code_version : String
  pub epoch_id : ℕ
  pub bet_id : ℕ
  pub seed_commit : String
  pub client_seed : String
  pub nonce : ℕ
  pub rule_hash : String
  pub draws : List ℕ
  pub win : Bool
  pub payout_bp : ℕ
  pub timestamp : ℕ

pub record SignedReceipt : Type 0 where
  pub receipt : Receipt
  pub signature : String

pub record Outcome : Type 0 where
  pub draws : List ℕ
  pub win : Bool
  pub payout_bp : ℕ

pub record EpochClose : Type 0 where
  pub spec_version : ℕ
  pub code_version : String
  pub epoch_id : ℕ
  pub seed_commit : String
  pub server_seed : String
  pub merkle_root : String
  pub receipt_count : ℕ

-- A MerkleTree object is determined by the digests that its constructor is given.
pub record MerkleTree : Type 0 where
  pub leaves : List Bytes

-- The functions of the package. `assert_client_seed` gives the message of what it throws, if it
-- throws; `recover_signer` gives `none` where it throws.
pub record Sdk : Type 0 where
  pub spec_version : ℕ
  pub code_version : String
  pub reference_key : String
  pub to_bytes : String → Bytes
  pub to_hex : Bytes → String
  pub address_of_private_key : Bytes → String
  pub assert_client_seed : String → Option String
  pub is_valid_rule : Value → Bool
  pub rule_hash : Value → String
  pub seed_commit : Bytes → String
  pub resolve_outcome : Value → Bytes → String → ℕ → Outcome
  pub receipt_digest : Receipt → Domain → Bytes
  pub sign_receipt : Receipt → Domain → Bytes → SignedReceipt
  pub sign_epoch_close : EpochClose → Domain → Bytes → String
  pub recover_signer : Bytes → String → Option String
  pub merkle_root : MerkleTree → Bytes
  pub merkle_proof : MerkleTree → ℕ → List Bytes
  pub verify_merkle_proof : Bytes → List Bytes → Bytes → Bool
  pub verify_commit : String → String → Bool
  pub verify_outcome : Receipt → Value → String → Bool

-- What the server relies on: hex is read back, a receipt's signer is recovered, and the checks of
-- FORESEER-SPEC section 8 accept what the package's own functions make.
pub record SdkLaws (sdk : Sdk) : Type 0 where
  pub bytes_of_hex : (b : Bytes) → sdk.to_bytes (sdk.to_hex b) ≡ b
  pub signed_receipt : (r : Receipt) (d : Domain) (k : Bytes) → (sdk.sign_receipt r d k).receipt ≡ r
  pub signer_of_signed :
      (r : Receipt) (d : Domain) (k : Bytes)
      → sdk.recover_signer (sdk.receipt_digest r d) (sdk.sign_receipt r d k).signature
        ≡ some (sdk.address_of_private_key k)
  pub commit_of_seed :
      (seed : Bytes) → sdk.verify_commit (sdk.to_hex seed) (sdk.seed_commit seed) ≡ true
  pub outcome_of_seed :
      (r : Receipt) (rule : Value) (seed : String)
      → sdk.rule_hash rule ≡ r.rule_hash
      → sdk.resolve_outcome rule (sdk.to_bytes seed) r.client_seed r.nonce
        ≡ record { draws = r.draws; win = r.win; payout_bp = r.payout_bp }
      → sdk.verify_outcome r rule seed ≡ true
  pub proof_of_leaf :
      (t : MerkleTree) (i : ℕ) (leaf : Bytes)
      → get_elem? t.leaves i ≡ some leaf
      → sdk.verify_merkle_proof leaf (sdk.merkle_proof t i) (sdk.merkle_root t) ≡ true

-- verifyReceiptSignature of foreseer-sdk/verify, another parameter: its answer about a receipt with its
-- signature, in a domain, when a signer is expected.
pub record SignatureCheck : Type 0 where
  pub accepted : Bool
  pub tee_id : Option String
  pub error : String

abbrev pub Verifier : Type 0
Verifier = SignedReceipt → Domain → Option String → SignatureCheck

-- What the clients rely on: a signature whose recovered signer is the expected one is accepted.
pub record AcceptsSigner (sdk : Sdk) (verify_signature : Verifier) : Type 0 where
  pub accepts :
      (signed : SignedReceipt) (d : Domain) (a : String)
      → sdk.recover_signer (sdk.receipt_digest signed.receipt d) signed.signature ≡ some a
      → (verify_signature signed d (some a)).accepted ≡ true
