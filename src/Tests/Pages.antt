-- ===== src/Tests/Pages.antt =====
-- The theorems about the pages, at the run of Tests.antt.
use foreseer.Base.{refl, none, [], ◌∷◌}
use foreseer.Sdk.Toy.{toy, toy-SdkLaws}
use foreseer.Db.{EpochRow, ReceiptRow, epoch_by_id, open_epoch, insert_epoch, max_epoch_id}
use foreseer.Engine.{Engine, Config, row_to_receipt, ensure_epoch}
use foreseer.Engine.Sound.{IsSound}
use foreseer.Api.Params.{int_param, natural_of, read_digits}
use foreseer.Api.Pages.{EpochJson, ReceiptsPage, epoch_json, by_id}
use foreseer.Api.Pages.Secret.{Reveals, by_id-Reveals}
use foreseer.Api.Run.{genesis, ensured}
use foreseer.Api.Run.Fair.{genesis-IsSound, step-IsSound}
use foreseer.Tests.{same_text}

abbrev first_page : EpochJson
first_page = record {
  epoch_id = 1;
  code_version = "0x6094";
  seed_commit = "10110";
  opened_at = 0;
  closed_at = none;
  server_seed = none;
  merkle_root = none;
  receipt_count = none;
  close_signature = none;
}

abbrev config : Config
config = record {
  key = 0 ∷ [];
  tee_id = "0";
  domain = record { name = "Foreseer"; version = "0"; chain_id = 114 };
  epoch_seconds = 300;
}

abbrev first_epoch : EpochRow
first_epoch = record {
  epoch_id = 1;
  seed_commit = "10110";
  server_seed = "10110";
  opened_at = 0;
  closed_at = none;
  merkle_root = none;
  receipt_count = none;
  close_signature = none;
}

-- The server after its first epoch was opened.
abbrev opened : Engine
opened = record genesis { db = record genesis.db { epochs = first_epoch ∷ [] } }

opened-IsSound : IsSound toy config opened
unfolding ensure_epoch open_epoch epoch_by_id insert_epoch max_epoch_id
opened-IsSound =
    step-IsSound same_text toy config 5 (ensured 0 (1 ∷ 2 ∷ [])) genesis
      (genesis-IsSound toy config)

by_id-Reveals_example : Reveals toy first_page
unfolding by_id epoch_json epoch_by_id int_param natural_of read_digits
by_id-Reveals_example =
    by_id-Reveals toy config opened "1" first_page opened toy-SdkLaws opened-IsSound refl

abbrev one_receipt : ReceiptRow
one_receipt = record {
  epoch_id = 1;
  bet_id = 0;
  operator_id = 1;
  client_seed = "seed";
  nonce = 0;
  rule_hash = "dice";
  draws = 2 ∷ [];
  win = 1;
  payout_bp = 19800;
  timestamp = 3;
  signature = "0";
  price_wei = 5;
}

abbrev listing : Engine
listing = record opened { db = record opened.db { receipts = one_receipt ∷ [] } }

abbrev page : ReceiptsPage
page = record {
  epoch_id = 1;
  total = 1;
  limit = 3;
  offset = 0;
  receipts = record { receipt = row_to_receipt toy one_receipt "10110"; signature = "0" } ∷ [];
}
