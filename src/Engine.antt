-- ===== src/Engine.antt =====
-- server/src/engine.ts: the class Engine. Its fields `db`, `merkleCache` and `merkleCacheHits` are
-- the state, its constant fields a parameter; a call is one synchronous step, so the clock is read
-- once, and the random seed of a new epoch is an argument.
mod Data
mod Rows
pub mod Sound
pub mod Frame
pub mod Open
pub mod Stored
pub mod Play
pub mod Close
pub mod Tick
pub mod Cache
pub mod Proofs
pub mod Answers
pub use Data.*
unfoldable pub use Rows.*
use Prim.Native.String.{◌++◌}
use foreseer.Base.{
  ℕ, ◌+◌, String, Bool, Option, none, some, List, map, ltb, leb, ◌==◌, nat_eq, if◌then◌else◌, count,
  length, get_elem?, not,
}
use foreseer.Base.JsMap.{JsMap, get, set, delete, delete_first}
use foreseer.Base.Text.{decimal}
use foreseer.Base.Exec.{
  api, thrown, Exec, pure, gets, modify, guard, or_raise, ◌>>=◌, ◌>>◌, ok, err,
}
use foreseer.Sdk.{Bytes, Domain, Receipt, SignedReceipt, EpochClose, MerkleTree, Sdk}
use foreseer.Db.{
  Db, EpochRow, ReceiptRow, open_epoch, epoch_by_id, max_epoch_id, set_closed, in_epoch, next_nonce,
}

module _ (sdk : Sdk) where
  unfoldable pub new_config : EngineOptions → Config
  new_config options =
      let key = sdk.to_bytes (or_default options.private_key sdk.reference_key) in
      record {
        key = key;
        tee_id = sdk.address_of_private_key key;
        domain = record {
          name = "Foreseer";
          version = "0";
          chain_id = or_default options.chain_id 114;
        };
        epoch_seconds = or_default options.epoch_seconds 300;
      }

  abbrev pub row_to_receipt : ReceiptRow → String → Receipt
  row_to_receipt row epoch_seed_commit = record {
    spec_version = sdk.spec_version;
    code_version = sdk.code_version;
    epoch_id = row.epoch_id;
    bet_id = row.bet_id;
    seed_commit = epoch_seed_commit;
    client_seed = row.client_seed;
    nonce = row.nonce;
    rule_hash = row.rule_hash;
    draws = row.draws;
    win = row.win == 1;
    payout_bp = row.payout_bp;
    timestamp = row.timestamp;
  }

  abbrev pub new_epoch : Db → ℕ → Bytes → EpochRow
  new_epoch db now seed = record {
    epoch_id = or_default (max_epoch_id db.epochs) 0 + 1;
    seed_commit = sdk.seed_commit seed;
    server_seed = sdk.to_hex seed;
    opened_at = now;
    closed_at = none;
    merkle_root = none;
    receipt_count = none;
    close_signature = none;
  }

  abbrev pub open_new_epoch : ℕ → Bytes → Exec Engine EpochRow
  open_new_epoch now seed = do
    row ← gets (λ s. new_epoch s.db now seed)
    run_insert_epoch row
    found ← gets (λ s. epoch_by_id row.epoch_id s.db.epochs)
    or_raise found thrown

  unfoldable pub ensure_epoch : ℕ → Bytes → Exec Engine EpochRow
  ensure_epoch now seed = do
    current ← gets (λ s. open_epoch s.db.epochs)
    elim current [ some e ↦ pure e | none ↦ open_new_epoch now seed ]

module _ (sdk : Sdk) (config : Config) where
  abbrev pub digests_of : List ReceiptRow → String → List Bytes
  digests_of rows epoch_seed_commit =
      map (λ row. sdk.receipt_digest (row_to_receipt sdk row epoch_seed_commit) config.domain) rows

  -- The receipt of a play, before it is signed.
  abbrev pub new_receipt : PlayInput → ℕ → EpochRow → ℕ → ℕ → Receipt
  new_receipt input now epoch nonce bet_id =
      let outcome =
        sdk.resolve_outcome input.rule (sdk.to_bytes epoch.server_seed) input.client_seed nonce in
      record {
        spec_version = sdk.spec_version;
        code_version = sdk.code_version;
        epoch_id = epoch.epoch_id;
        bet_id = bet_id;
        seed_commit = epoch.seed_commit;
        client_seed = input.client_seed;
        nonce = nonce;
        rule_hash = sdk.rule_hash input.rule;
        draws = outcome.draws;
        win = outcome.win;
        payout_bp = outcome.payout_bp;
        timestamp = now;
      }

  abbrev pub new_receipt_row : PlayInput → Receipt → SignedReceipt → ReceiptRow
  new_receipt_row input receipt signed = record {
    epoch_id = receipt.epoch_id;
    bet_id = receipt.bet_id;
    operator_id = input.operator_id;
    client_seed = input.client_seed;
    nonce = receipt.nonce;
    rule_hash = receipt.rule_hash;
    draws = receipt.draws;
    win = if receipt.win then 1 else 0;
    payout_bp = receipt.payout_bp;
    timestamp = receipt.timestamp;
    signature = signed.signature;
    price_wei = or_default input.price_wei 0;
  }

  -- What `play` does once it has its epoch.
  abbrev pub play_in : PlayInput → ℕ → EpochRow → Exec Engine Played
  play_in input now epoch = do
    receipts ← gets (λ s. s.db.receipts)
    let nonce = next_nonce epoch.epoch_id input.client_seed receipts
    guard (not (differs input.nonce nonce))
        (api 409 ("nonce must be " ++ decimal nonce ++ " for this clientSeed"))
    let bet_id = count (in_epoch epoch.epoch_id) receipts
    let receipt = new_receipt input now epoch nonce bet_id
    let signed = sdk.sign_receipt receipt config.domain config.key
    run_insert_receipt (new_receipt_row input receipt signed)
    pure (record { signed = signed; epoch_id = epoch.epoch_id; bet_id = bet_id })

  unfoldable pub play : PlayInput → ℕ → Bytes → Exec Engine Played
  unfolding ensure_epoch
  play input now seed = do
    assert_client_seed (sdk.assert_client_seed input.client_seed)
    epoch ← ensure_epoch sdk now seed
    play_in input now epoch

  abbrev pub close_epoch : ℕ → EpochRow → Exec Engine Closed
  close_epoch now epoch s =
      let rows = receipt_rows epoch.epoch_id none s.db in
      let digests = digests_of rows epoch.seed_commit in
      let tree : MerkleTree = record { leaves = digests } in
      let root = sdk.to_hex (sdk.merkle_root tree) in
      let close : EpochClose = record {
        spec_version = sdk.spec_version;
        code_version = sdk.code_version;
        epoch_id = epoch.epoch_id;
        seed_commit = epoch.seed_commit;
        server_seed = epoch.server_seed;
        merkle_root = root;
        receipt_count = length rows;
      } in
      let signature = sdk.sign_epoch_close close config.domain config.key in
      (
        ok (record {
          epoch_id = epoch.epoch_id;
          merkle_root = root;
          receipt_count = length rows;
          close_signature = signature;
        }),
        record s {
          db = record s.db {
            epochs = set_closed epoch.epoch_id now root (length rows) signature s.db.epochs;
          };
        },
      )

  unfoldable pub close_open : ℕ → Exec Engine (Option Closed)
  close_open now = do
    current ← gets (λ s. open_epoch s.db.epochs)
    elim current [
      | none ↦ pure none
      | some epoch ↦ do closed ← close_epoch now epoch; pure (some closed)
    ]

  abbrev pub is_due : ℕ → EpochRow → Bool
  is_due now epoch = leb (epoch.opened_at + config.epoch_seconds) now

  -- The closing half of `tick`.
  abbrev pub close_if_due : ℕ → Option EpochRow → Exec Engine (Option ℕ)
  close_if_due now none = pure none
  close_if_due now (some epoch) =
      if is_due now epoch
      then (do closed ← close_open now; c ← or_raise closed thrown; pure (some c.epoch_id))
      else pure none

  unfoldable pub tick : ℕ → Bytes → Exec Engine (Option ℕ × ℕ)
  tick now seed = do
    current ← gets (λ s. open_epoch s.db.epochs)
    closed ← close_if_due now current
    epoch ← ensure_epoch sdk now seed
    pure (closed, epoch.epoch_id)

  -- A hit moves to the end of the map; a miss is computed, and the oldest entry leaves past eight.
  unfoldable pub cached_tree : EpochRow → Exec Engine CacheEntry
  cached_tree epoch s = elim (get s.merkle_cache epoch.epoch_id) [
    | some hit ↦ (
      ok hit,
      record s {
        merkle_cache_hits = s.merkle_cache_hits + 1;
        merkle_cache = set (delete s.merkle_cache epoch.epoch_id) epoch.epoch_id hit;
      },
    )
    | none ↦
        let digests = digests_of (receipt_rows epoch.epoch_id none s.db) epoch.seed_commit in
        let entry : CacheEntry = record { tree = record { leaves = digests }; digests = digests } in
        let cache = set s.merkle_cache epoch.epoch_id entry in
        (
          ok entry,
          record s { merkle_cache = if ltb 8 (length cache) then delete_first cache else cache },
        )
  ]

  unfoldable pub proof_for : ℕ → ℕ → Exec Engine Proof
  proof_for epoch_id bet_id = do
    found ← gets (λ s. epoch_by_id epoch_id s.db.epochs)
    epoch ← or_raise found (api 404 "unknown epoch")
    or_raise epoch.closed_at (api 409 "epoch still open, proofs exist after close")
    entry ← cached_tree epoch
    digest ← or_raise (get_elem? entry.digests bet_id) (api 404 "unknown betId")
    pure (record {
      digest = sdk.to_hex digest;
      proof = map sdk.to_hex (sdk.merkle_proof entry.tree bet_id);
      merkle_root = epoch.merkle_root;
    })
