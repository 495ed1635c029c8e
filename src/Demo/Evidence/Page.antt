-- ===== src/Demo/Evidence/Page.antt =====
-- The one page of receipts that the demo casino asks for.
use foreseer.Base.{ℕ, ◌≤◌, ◌≡◌, String, Option, some, arith, nat_eq}
use foreseer.Base.Exec.{err, api}
use foreseer.Sdk.{Bytes, Sdk}
use foreseer.Db.{EpochRow, epoch_by_id}
use foreseer.Engine.{Engine, Config}
use foreseer.Engine.Sound.{IsSound}
use foreseer.Api.Pages.{health}
use foreseer.Demo.Client.Found.{by_id-found, receipts-found, entry_in-none}
use foreseer.Demo.Evidence.{evidence_for}

-- On a sound server that knows the epoch, the evidence for a bet id of 1000 or more is the answer
-- 404, unknown bet, whether the bet is stored or not.
pub evidence_for-beyond_page :
    (sdk : Sdk) (config : Config) (treasury : Option String) (s : Engine) (e : EpochRow)
    (i b now : ℕ) (fresh : Bytes)
    → IsSound sdk config s
    → epoch_by_id i s.db.epochs ≡ some e
    → 1000 ≤ b
    → evidence_for sdk config (health config treasury) i b now fresh s
      ≡ (err (api 404 "unknown bet in this epoch"), s)
unfolding evidence_for
evidence_for-beyond_page sdk config treasury s e i b now fresh v f l = ground (
  arith,
  by_id-found sdk config s e i b f,
  receipts-found sdk config s e i b f,
  entry_in-none sdk config s e i b v.numbered l,
)
