-- ===== src/Engine/Data.antt =====
-- The state of the class Engine, and what its methods take and return.
use foreseer.Base.{ℕ, String, Option, List}
use foreseer.Base.Int.{ℤ}
use foreseer.Base.JsMap.{JsMap}
use foreseer.Json.{Value}
use foreseer.Sdk.{Bytes, Domain, SignedReceipt, MerkleTree}
use foreseer.Db.{Db}

pub record EngineOptions : Type 0 where
  pub private_key : Option String
  pub chain_id : Option ℕ
  pub epoch_seconds : Option ℕ

-- The fields that the constructor sets once.
pub record Config : Type 0 where
  pub key : Bytes
  pub tee_id : String
  pub domain : Domain
  pub epoch_seconds : ℕ

pub record CacheEntry : Type 0 where
  pub tree : MerkleTree
  pub digests : List Bytes

pub record Engine : Type 0 where
  pub db : Db
  pub merkle_cache : JsMap ℕ CacheEntry
  pub merkle_cache_hits : ℕ

pub record PlayInput : Type 0 where
  pub operator_id : ℕ
  pub client_seed : String
  pub rule : Value
  pub nonce : Option ℤ
  pub price_wei : Option ℕ

pub record Played : Type 0 where
  pub signed : SignedReceipt
  pub epoch_id : ℕ
  pub bet_id : ℕ

pub record Closed : Type 0 where
  pub epoch_id : ℕ
  pub merkle_root : String
  pub receipt_count : ℕ
  pub close_signature : String

pub record Proof : Type 0 where
  pub digest : String
  pub proof : List String
  pub merkle_root : Option String
