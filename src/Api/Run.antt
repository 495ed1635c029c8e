-- ===== src/Api/Run.antt =====
-- The server as a whole: server/src/main.ts opens the tables and makes an Engine, and then the
-- handlers and the timer run on it one after the other, in any order.
pub mod Fair
pub mod Prepaid
pub mod Registry
use foreseer.Base.{ℕ, String, Bool, Option, none, List, [], ◌∷◌}
use foreseer.Base.Exec.{Exec, Result}
use foreseer.Json.{Value}
use foreseer.Sdk.{Bytes, Sdk}
use foreseer.Db.{OperatorRow, empty}
use foreseer.Engine.{Engine, Config, ensure_epoch, close_open, tick, proof_for}
use foreseer.Wallet.{Sessions}
use foreseer.Api.Operators.{create_operator, create_for_wallet, set_active}
use foreseer.Api.Rules.{register}
use foreseer.Api.Play.{play_handler}
use foreseer.Api.Topup.{ChainTx, credit}
use foreseer.Api.Verify.{verify}

-- new Engine(openDb(":memory:"), ...).
abbrev pub genesis : Engine
genesis = record { db = empty; merkle_cache = []; merkle_cache_hits = 0 }

-- A call that reaches the engine or its tables, with the clock and the random bytes of the call.
pub data Call : Type 0 where
  ensured ticked : (now : ℕ) (seed : Bytes) → Call
  closed : (now : ℕ) → Call
  registered : (operator_id : ℕ) (body : Value) (now : ℕ) → Call
  played : (operator : OperatorRow) (body : Value) (now : ℕ) (seed : Bytes) → Call
  proved verified : (epoch_id bet_id : ℕ) → Call
  created : (body : Value) (now : ℕ) (random : String) → Call
  provided :
      (sessions : Sessions) (token : Option String) (body : Value) (now : ℕ) (random : String)
      → Call
  switched : (id : ℕ) (body : Value) → Call
  topped_up :
      (operator : OperatorRow) (treasury hash : String) (fetched : Option ChainTx) (now : ℕ) → Call

module _ (sha256 : String → String) (sdk : Sdk) (config : Config) (price : ℕ) where
  abbrev pub step : Call → Engine → Engine
  step (ensured now seed) s = (ensure_epoch sdk now seed s).1
  step (ticked now seed) s = (tick sdk config now seed s).1
  step (closed now) s = (close_open sdk config now s).1
  step (registered operator_id body now) s = (register sdk operator_id body now s).1
  step (played operator body now seed) s =
      (play_handler sdk config price operator body now seed s).1
  step (proved epoch_id bet_id) s = (proof_for sdk config epoch_id bet_id s).1
  step (verified epoch_id bet_id) s = (verify sdk config epoch_id bet_id s).1
  step (created body now random) s = (create_operator sha256 body now random s).1
  step (provided sessions token body now random) s =
      (create_for_wallet sha256 sessions token body now random s).1
  step (switched id body) s = (set_active id body s).1
  step (topped_up operator treasury hash fetched now) s =
      (credit operator treasury hash fetched now s).1

  abbrev pub run : List Call → Engine → Engine
  run [] s = s
  run (c ∷ cs) s = run cs (step c s)
