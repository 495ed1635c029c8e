-- ===== src/Api/Run/Prepaid.antt =====
-- What holds of the accounts after any calls.
use foreseer.Base.{ℕ, ◌≤◌, ◌≡◌, ◌≢◌, ◌⊎◌, sym, subst, String, none, some, List, [], ◌∷◌, arith}
use foreseer.Sdk.{Sdk, SdkLaws}
use foreseer.Db.{Db}
use foreseer.Engine.{Engine, Config}
use foreseer.Engine.Sound.{IsSound}
use foreseer.Engine.Open.{ensure_epoch-IsSound}
use foreseer.Engine.Tick.{tick-same}
use foreseer.Engine.Close.{close_open-same}
use foreseer.Engine.Answers.{proof_for-same}
use foreseer.Funds.Sums.{spent, deposited}
use foreseer.Api.Operators.Frame.{
  create_operator-SameBut, create_for_wallet-SameBut, set_active-SameBut, SameBut-money,
}
use foreseer.Api.Rules.{register-same}
use foreseer.Api.Play.Kept.{IsCovered, play_handler-IsCovered}
use foreseer.Api.Topup.Once.{credit-le}
use foreseer.Api.Verify.Green.{verify-same}
use foreseer.Api.Run.Fair.{step-IsSound, genesis-IsSound}
use foreseer.Api.Run.{
  genesis, Call, ensured, ticked, closed, registered, played, proved, verified, created, provided,
  switched, topped_up, step, run,
}

-- Every play of the operator `id` comes with its wallet, as its row has it.
abbrev pub HasWallet : ℕ → String → List Call → Type 0
HasWallet id wallet [] = Unit
HasWallet id wallet (played operator body now seed ∷ cs) =
    ((operator.id ≢ id) ⊎ (operator.owner_wallet ≡ some wallet)) × HasWallet id wallet cs
HasWallet id wallet (c ∷ cs) = HasWallet id wallet cs

IsCovered-same :
    (id : ℕ) (db db' : Db)
    → db'.receipts ≡ db.receipts
    → db'.deposits ≡ db.deposits
    → IsCovered id db
    → IsCovered id db'
IsCovered-same id db db' r d h = rw (r, d) h

IsCovered-more :
    (id : ℕ) (db db' : Db)
    → db'.receipts ≡ db.receipts
    → deposited id db.deposits ≤ deposited id db'.deposits
    → IsCovered id db
    → IsCovered id db'
IsCovered-more id db db' r d h = rw r (omega (arith, d, h))

module _ (sha256 : String → String) (sdk : Sdk) (config : Config) (price : ℕ) (id : ℕ)
    (wallet : String) (laws : SdkLaws sdk) where
  step-IsCovered :
      (c : Call) (cs : List Call) (s : Engine)
      → IsSound sdk config s
      → HasWallet id wallet (c ∷ cs)
      → IsCovered id s.db
      → IsCovered id (step sha256 sdk config price c s).db × HasWallet id wallet cs
  step-IsCovered (ensured now seed) cs s v w h =
      let (e, s', q, o, v', rules, receipts, deposits) =
        ensure_epoch-IsSound sdk config now seed s v in
      (
        subst (λ x. IsCovered id x.1.db) (sym q) (IsCovered-same id s.db s'.db receipts deposits h),
        w,
      )
  step-IsCovered (ticked now seed) cs s v w h =
      let (receipts, deposits, rules) = tick-same sdk config now seed s v in
      (
        IsCovered-same id s.db (step sha256 sdk config price (ticked now seed) s).db receipts
            deposits h,
        w,
      )
  step-IsCovered (closed now) cs s v w h =
      let (receipts, deposits, rules) = close_open-same sdk config now s v in
      (
        IsCovered-same id s.db (step sha256 sdk config price (closed now) s).db receipts deposits h,
        w,
      )
  step-IsCovered (registered operator_id body now) cs s v w h =
      let (receipts, deposits) = register-same sdk operator_id body now s in
      (
        IsCovered-same id s.db (step sha256 sdk config price (registered operator_id body now) s).db
            receipts deposits h,
        w,
      )
  step-IsCovered (played operator body now seed) cs s v w h =
      (play_handler-IsCovered sdk config price operator body now seed s id wallet laws v w.0 h, w.1)
  step-IsCovered (proved i b) cs s v w h =
      (subst (IsCovered id) (sym (proof_for-same sdk config s i b v)) h, w)
  step-IsCovered (verified i b) cs s v w h =
      (subst (IsCovered id) (sym (verify-same sdk config s i b v)) h, w)
  step-IsCovered (created body now random) cs s v w h =
      let (receipts, deposits) =
        SameBut-money s (step sha256 sdk config price (created body now random) s)
          (create_operator-SameBut sha256 body now random s) in
      (
        IsCovered-same id s.db (step sha256 sdk config price (created body now random) s).db
            receipts deposits h,
        w,
      )
  step-IsCovered (provided sessions token body now random) cs s v w h =
      let (receipts, deposits) =
        SameBut-money s (step sha256 sdk config price (provided sessions token body now random) s)
          (create_for_wallet-SameBut sha256 body now random s sessions token) in
      (
        IsCovered-same id s.db
            (step sha256 sdk config price (provided sessions token body now random) s).db receipts
            deposits h,
        w,
      )
  step-IsCovered (switched o body) cs s v w h =
      let (receipts, deposits) =
        SameBut-money s (step sha256 sdk config price (switched o body) s)
          (set_active-SameBut o body s) in
      (
        IsCovered-same id s.db (step sha256 sdk config price (switched o body) s).db receipts
            deposits h,
        w,
      )
  step-IsCovered (topped_up operator treasury hash fetched now) cs s v w h =
      let (more, receipts) = credit-le operator treasury hash now s fetched id in
      (
        IsCovered-more id s.db
            (step sha256 sdk config price (topped_up operator treasury hash fetched now) s).db
            receipts more h,
        w,
      )

  run-IsCovered :
      (cs : List Call) (s : Engine)
      → IsSound sdk config s
      → HasWallet id wallet cs
      → IsCovered id s.db
      → IsCovered id (run sha256 sdk config price cs s).db
  run-IsCovered [] s v w h = h
  run-IsCovered (c ∷ cs) s v w h =
      let (h', w') = step-IsCovered c cs s v w h in
      run-IsCovered cs (step sha256 sdk config price c s)
        (step-IsSound sha256 sdk config price c s v) w' h'

  -- After any calls on a server that starts with empty tables, in any order, an operator whose
  -- plays all come with its wallet has spent no more than it deposited.
  pub run_prepaid :
      (cs : List Call)
      → HasWallet id wallet cs
      → spent id none (run sha256 sdk config price cs genesis).db.receipts
        ≤ deposited id (run sha256 sdk config price cs genesis).db.deposits
  run_prepaid cs w = run-IsCovered cs genesis (genesis-IsSound sdk config) w (omega arith)
