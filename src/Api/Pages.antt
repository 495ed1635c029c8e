-- ===== src/Api/Pages.antt =====
-- What the server shows: EpochsController, HealthController and MetricsController, and the JSON of a
-- receipt and of an epoch.
pub mod Secret
use foreseer.Base.{
  ℕ, ◌+◌, ◌-◌, ◌/◌, String, Bool, true, false, not, Option, none, some, List, [], ◌∷◌, map, ltb,
  is_some, count, length, ◌==◌, nat_eq, if◌then◌else◌,
}
use foreseer.Base.Exec.{Result, ok, err, api, Exec, pure, lift, gets, or_raise, ◌>>=◌, ◌>>◌}
use foreseer.Json.{Value, string}
use foreseer.Sdk.{Bytes, Sdk, Receipt}
use foreseer.Db.{Db, EpochRow, ReceiptRow, is_open, epoch_by_id}
use foreseer.Engine.{
  Engine, Config, Proof, row_to_receipt, receipt_page, ensure_epoch, close_open, Closed, proof_for,
}
use foreseer.Api.Params.{max_safe_integer, int_param, int_query}

pub record ReceiptJson : Type 0 where
  pub receipt : Receipt
  pub signature : String

abbrev pub receipt_json : Receipt → String → ReceiptJson
receipt_json receipt signature = record { receipt = receipt; signature = signature }

pub record EpochJson : Type 0 where
  pub epoch_id : ℕ
  pub code_version : String
  pub seed_commit : String
  pub opened_at : ℕ
  pub closed_at : Option ℕ
  pub server_seed : Option String
  pub merkle_root : Option String
  pub receipt_count : Option ℕ
  pub close_signature : Option String

pub record Current : Type 0 where
  pub epoch_id : ℕ
  pub seed_commit : String
  pub opened_at : ℕ
  pub closes_at : ℕ

pub record ReceiptsPage : Type 0 where
  pub epoch_id : ℕ
  pub total : ℕ
  pub limit : ℕ
  pub offset : ℕ
  pub receipts : List ReceiptJson

pub record Health : Type 0 where
  pub tee_id : String
  pub chain_id : ℕ
  pub treasury : Option String

pub record Metrics : Type 0 where
  pub uptime_seconds : ℕ
  pub epochs_total : ℕ
  pub epochs_open : ℕ
  pub receipts_total : ℕ
  pub operators_total : ℕ
  pub merkle_cache_hits : ℕ
  pub plays_last_hour : ℕ

-- The seed is shown once the epoch is closed.
unfoldable pub epoch_json : Sdk → EpochRow → EpochJson
epoch_json sdk row = record {
  epoch_id = row.epoch_id;
  code_version = sdk.code_version;
  seed_commit = row.seed_commit;
  opened_at = row.opened_at;
  closed_at = row.closed_at;
  server_seed = if is_some row.closed_at then some row.server_seed else none;
  merkle_root = row.merkle_root;
  receipt_count = row.receipt_count;
  close_signature = row.close_signature;
}

-- `typeof clientSeedRaw === "string" ? clientSeedRaw : undefined`.
abbrev pub seed_query : Value → Option String
seed_query (string s) = some s
seed_query _ = none

-- GET /health.
abbrev pub health : Config → Option String → Health
health config treasury = record {
  tee_id = config.tee_id;
  chain_id = config.domain.chain_id;
  treasury = treasury;
}

-- GET /metrics; `now` is the engine's clock, the other two are in milliseconds.
unfoldable pub metrics : ℕ → ℕ → ℕ → Engine → Metrics
metrics started_at_ms now_ms now s = record {
  uptime_seconds = (now_ms - started_at_ms) / 1000;
  epochs_total = length s.db.epochs;
  epochs_open = count is_open s.db.epochs;
  receipts_total = length s.db.receipts;
  operators_total = length s.db.operators;
  merkle_cache_hits = s.merkle_cache_hits;
  plays_last_hour = count (λ r. ltb now (r.timestamp + 3600)) s.db.receipts;
}

module _ (sdk : Sdk) (config : Config) where
  -- GET /epochs/current.
  unfoldable pub current : ℕ → Bytes → Exec Engine Current
  current now seed = do
    row ← ensure_epoch sdk now seed
    pure (record {
      epoch_id = row.epoch_id;
      seed_commit = row.seed_commit;
      opened_at = row.opened_at;
      closes_at = row.opened_at + config.epoch_seconds;
    })

  -- GET /epochs/:id.
  unfoldable pub by_id : String → Exec Engine EpochJson
  by_id id = do
    epoch_id ← lift (int_param id)
    found ← gets (λ s. epoch_by_id epoch_id s.db.epochs)
    row ← or_raise found (api 404 "unknown epoch")
    pure (epoch_json sdk row)

  abbrev pub page_of : ℕ → EpochRow → ℕ → ℕ → List ReceiptRow × ℕ → ReceiptsPage
  page_of epoch_id epoch limit offset page = record {
    epoch_id = epoch_id;
    total = page.1;
    limit = limit;
    offset = offset;
    receipts =
        map (λ row. receipt_json (row_to_receipt sdk row epoch.seed_commit) row.signature) page.0;
  }

  -- GET /epochs/:id/receipts.
  unfoldable pub receipts : String → Value → Value → Value → Exec Engine ReceiptsPage
  receipts id client_seed limit offset = do
    epoch_id ← lift (int_param id)
    found ← gets (λ s. epoch_by_id epoch_id s.db.epochs)
    epoch ← or_raise found (api 404 "unknown epoch")
    size ← lift (int_query limit 100 1 1000 "limit must be 1..1000")
    start ← lift (int_query offset 0 0 max_safe_integer "offset must be >= 0")
    page ← gets (λ s. receipt_page epoch_id (seed_query client_seed) size start s.db)
    pure (page_of epoch_id epoch size start page)

  -- GET /epochs/:id/proof/:betId.
  unfoldable pub proof : String → String → Exec Engine Proof
  proof id bet_id = do
    i ← lift (int_param id)
    b ← lift (int_param bet_id)
    proof_for sdk config i b

  -- POST /admin/close.
  unfoldable pub close : ℕ → Exec Engine Closed
  close now = do closed ← close_open sdk config now; or_raise closed (api 409 "no open epoch")
