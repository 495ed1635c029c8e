-- ===== src/Api/Run/Fair.antt =====
-- What holds of the server after any calls: the engine is sound, and its receipts verify.
use foreseer.Base.{
  String, ℕ, ◌≡◌, refl, true, none, some, List, [], ◌∷◌, find, ◌==◌, nat_eq, arith, ap, subst, sym,
}
use foreseer.Base.Exec.{ok}
use foreseer.Sdk.{Sdk, SdkLaws}
use foreseer.Db.{EpochRow, ReceiptRow, epoch_by_id}
use foreseer.Engine.{Engine, Config, EngineOptions, new_config, receipt_rows}
use foreseer.Engine.Sound.{IsSound}
use foreseer.Engine.Open.{ensure_epoch-IsSound}
use foreseer.Engine.Tick.{tick-IsSound}
use foreseer.Engine.Close.{close_open-IsSound}
use foreseer.Engine.Answers.{proof_for-IsSound}
use foreseer.Api.Operators.{create_operator, create_for_wallet, set_active}
use foreseer.Api.Operators.Frame.{
  create_operator-SameBut, create_for_wallet-SameBut, set_active-SameBut, SameBut-IsSound,
}
use foreseer.Api.Rules.{register-IsSound}
use foreseer.Api.Play.Kept.{play_handler-IsSound}
use foreseer.Api.Topup.Once.{credit-IsSound}
use foreseer.Api.Verify.{verify, checked}
use foreseer.Api.Verify.Green.{green, verify-IsSound, verify_all_green}
use foreseer.Api.Run.{
  genesis, Call, ensured, ticked, closed, registered, played, proved, verified, created, provided,
  switched, topped_up, step, run,
}

pub genesis-IsSound : (sdk : Sdk) (config : Config) → IsSound sdk config genesis
genesis-IsSound sdk config = record {
  ordered = tt;
  numbered = tt;
  committed = tt;
  hashed = tt;
  sealed = tt;
  receipts = tt;
  cache = tt;
  bounded = omega arith;
}

module _ (sha256 : String → String) (sdk : Sdk) (config : Config) (price : ℕ) where
  -- Every call keeps the engine sound, whether it answers or throws.
  pub step-IsSound :
      (c : Call) (s : Engine)
      → IsSound sdk config s
      → IsSound sdk config (step sha256 sdk config price c s)
  step-IsSound (ensured now seed) s v =
      let (e, s', q, o, v', rules, receipts, deposits) =
        ensure_epoch-IsSound sdk config now seed s v in
      subst (λ x. IsSound sdk config x.1) (sym q) v'
  step-IsSound (ticked now seed) s v = tick-IsSound sdk config now seed s v
  step-IsSound (closed now) s v = close_open-IsSound sdk config now s v
  step-IsSound (registered operator_id body now) s v =
      register-IsSound sdk config operator_id body now s v
  step-IsSound (played operator body now seed) s v =
      play_handler-IsSound sdk config price operator body now seed s v
  step-IsSound (proved i b) s v = proof_for-IsSound sdk config s i b v
  step-IsSound (verified i b) s v = verify-IsSound sdk config s i b v
  step-IsSound (created body now random) s v =
      SameBut-IsSound sdk config s (create_operator sha256 body now random s).1
        (create_operator-SameBut sha256 body now random s) v
  step-IsSound (provided sessions token body now random) s v =
      SameBut-IsSound sdk config s (create_for_wallet sha256 sessions token body now random s).1
        (create_for_wallet-SameBut sha256 body now random s sessions token) v
  step-IsSound (switched id body) s v =
      SameBut-IsSound sdk config s (set_active id body s).1 (set_active-SameBut id body s) v
  step-IsSound (topped_up operator treasury hash fetched now) s v =
      credit-IsSound operator treasury hash now s sdk config fetched v

  pub run-IsSound :
      (cs : List Call) (s : Engine)
      → IsSound sdk config s
      → IsSound sdk config (run sha256 sdk config price cs s)
  run-IsSound [] s v = v
  run-IsSound (c ∷ cs) s v = run-IsSound cs (step sha256 sdk config price c s) (step-IsSound c s v)

-- After any calls on a server that starts with empty tables, in any order, the verification of a
-- receipt that is stored in a closed epoch finds signature, commitment, outcome and Merkle proof
-- green.
pub run_all_green :
    (sha256 : String → String) (sdk : Sdk) (options : EngineOptions) (price : ℕ) (cs : List Call)
    (e : EpochRow) (row : ReceiptRow) (i b t : ℕ)
    → SdkLaws sdk
    → epoch_by_id i (run sha256 sdk (new_config sdk options) price cs genesis).db.epochs ≡ some e
    → e.closed_at ≡ some t
    → find
        (λ r. r.bet_id == b)
        (receipt_rows i none (run sha256 sdk (new_config sdk options) price cs genesis).db)
      ≡ some row
    → (verify sdk
        (new_config sdk options)
        i
        b
        (run sha256 sdk (new_config sdk options) price cs genesis)).0
      ≡ ok (checked green true)
unfolding new_config
run_all_green sha256 sdk options price cs e row i b t laws f c r =
    let config = new_config sdk options in
    let s = run sha256 sdk config price cs genesis in
    let v = run-IsSound sha256 sdk config price cs genesis (genesis-IsSound sdk config) in
    let (s', q, v') = verify_all_green sdk config s e row i b t laws refl v f c r in ap (λ x. x.0) q
