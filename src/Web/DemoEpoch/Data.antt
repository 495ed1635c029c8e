-- ===== src/Web/DemoEpoch/Data.antt =====
-- web/lib/use-demo-epoch.ts: the phases of the hook useDemoEpoch, its refs and React state, and the
-- events of a page.
use foreseer.Base.{ℕ, String, Bool, true, false, Option, List}
use foreseer.Base.Exec.{Error}
use foreseer.Json.{Value}
use foreseer.Web.DemoTee.{PlayRecord, RevealView, Demo}

pub data Phase : Type 0 where
  cold arming ready playing settled revealing revealed failed : Phase

-- setPhase((p) => (p === "cold" ? "arming" : p))
abbrev pub arming_from : Phase → Phase
arming_from cold = arming
arming_from arming = arming
arming_from ready = ready
arming_from playing = playing
arming_from settled = settled
arming_from revealing = revealing
arming_from revealed = revealed
arming_from failed = failed

-- setPhase((p) => (p === "revealed" ? p : "ready"))
abbrev pub ready_from : Phase → Phase
ready_from cold = ready
ready_from arming = ready
ready_from ready = ready
ready_from playing = ready
ready_from settled = ready
ready_from revealing = ready
ready_from revealed = revealed
ready_from failed = ready

-- phase === "playing" || phase === "revealing"
abbrev pub busy_phase : Phase → Bool
busy_phase cold = false
busy_phase arming = false
busy_phase ready = false
busy_phase playing = true
busy_phase settled = false
busy_phase revealing = true
busy_phase revealed = false
busy_phase failed = false

-- EpochView, without the client seed and the id of the TEE, which never change.
pub record EpochView : Type 0 where
  pub epoch_id : ℕ
  pub seed_commit : String
  pub is_open : Bool
  pub plays : List PlayRecord
  pub reveal : Option RevealView

-- The promise that `ensureTee` keeps for the key of the configuration.
pub data Loading : Type 0 where
  pending : Loading
  fulfilled : Loading
  rejected : Error → Loading

abbrev pub is_settled : Loading → Bool
is_settled pending = false
is_settled fulfilled = true
is_settled (rejected e) = true

-- Who awaits a call of `arm`: the observer of the section, or a press of play with its rule.
pub data Waiter : Type 0 where
  observer : Waiter
  player : Option Value → Waiter

-- The refs and the React state of the hook, and the engine behind the promise. `armed` says that
-- `teeRef` is set, `animation` is the record whose animation runs, and `none` in `error` is "".
pub record Hook (T : Type 0) : Type 0 where
  pub loading : Loading
  pub engine : Demo T
  pub armed : Bool
  pub alive : Bool
  pub busy : Bool
  pub waiting : List Waiter
  pub animation : Option PlayRecord
  pub phase : Phase
  pub view : Option EpochView
  pub last : Option PlayRecord
  pub error : Option Error

pub data Event : Type 0 where
  unmounted seen loaded : Event
  load_failed : Error → Event
  play_pressed : Option Value → Event
  animated reveal_pressed next_pressed : Event
