-- ===== src/Api/Operators/Frame.antt =====
-- The handlers of this module write the table `operators` alone.
use foreseer.Base.{
  ℕ, ◌≡◌, refl, String, Option, List, map, any, ◌==◌, nat_eq, if◌then◌else◌, inl, inr, Bool-cases,
}
use foreseer.Base.Exec.{Result, Result-cases}
use foreseer.Json.{Value, get}
use foreseer.Sdk.{Sdk}
use foreseer.Db.{OperatorRow}
use foreseer.Engine.{Engine, Config}
use foreseer.Engine.Sound.{IsSound}
use foreseer.Wallet.{Sessions}
use foreseer.Api.Operators.{
  Created, flag_of, set_active_of, create_operator, create_for_wallet, set_active,
}
use foreseer.Api.Operators.Distinct.{CreateAnswer, refused, made, create_operator_answers}
use foreseer.Api.Operators.Services.{
  ServiceAnswer, no_session, full, unnamed, taken, provided, create_for_wallet_answers,
}

-- Nothing but the operators and their counter differs.
pub record SameBut (s s' : Engine) : Type 0 where
  pub operators : List OperatorRow
  pub last_id : ℕ
  pub state :
      s' ≡ record s { db = record s.db { operators = operators; last_operator_id = last_id } }

module _ (sha256 : String → String) (body : Value) (now : ℕ) (random : String) (s : Engine) where
  unchanged : SameBut s s
  unchanged = record { operators = s.db.operators; last_id = s.db.last_operator_id; state = refl }

  made-SameBut :
      (x : Result Created × Engine) → CreateAnswer sha256 body now random s x → SameBut s x.1
  made-SameBut x (refused e) = record { operators = _; last_id = _; state = refl }
  made-SameBut x (made name owner new) = record { operators = _; last_id = _; state = refl }

  pub create_operator-SameBut : SameBut s (create_operator sha256 body now random s).1
  create_operator-SameBut =
      made-SameBut (create_operator sha256 body now random s)
        (create_operator_answers sha256 body now random s)

  module _ (sessions : Sessions) (token : Option String) where
    provided-SameBut :
        (x : Result Created × Engine)
        → ServiceAnswer sha256 body now random sessions token s x
        → SameBut s x.1
    provided-SameBut x (no_session q) = unchanged
    provided-SameBut x (full wallet q five) = unchanged
    provided-SameBut x (unnamed wallet q few bad) = unchanged
    provided-SameBut x (taken wallet name q few asked k old) = unchanged
    provided-SameBut x (provided wallet name q few asked k new) = record {
      operators = _;
      last_id = _;
      state = refl;
    }

    pub create_for_wallet-SameBut :
        SameBut s (create_for_wallet sha256 sessions token body now random s).1
    create_for_wallet-SameBut =
        provided-SameBut (create_for_wallet sha256 sessions token body now random s)
          (create_for_wallet_answers sha256 body now random sessions token s)

pub set_active-SameBut : (id : ℕ) (body : Value) (s : Engine) → SameBut s (set_active id body s).1
unfolding set_active
set_active-SameBut id body s = elim (Result-cases (flag_of (get body "active"))) [
  | inl (e, q) ↦
      rw q (record { operators = s.db.operators; last_id = s.db.last_operator_id; state = refl })
  | inr (b, q) ↦ elim (Bool-cases (any (λ o. o.id == id) s.db.operators)) [
    | inl k ↦
        rw (q, k)
          (record {
            operators = map (set_active_of id (if b then 1 else 0)) s.db.operators;
            last_id = s.db.last_operator_id;
            state = refl;
          })
    | inr k ↦
        rw (q, k)
          (record {
            operators = map (set_active_of id (if b then 1 else 0)) s.db.operators;
            last_id = s.db.last_operator_id;
            state = refl;
          })
  ]
]

pub SameBut-IsSound :
    (sdk : Sdk) (config : Config) (s s' : Engine)
    → SameBut s s'
    → IsSound sdk config s
    → IsSound sdk config s'
SameBut-IsSound sdk config s s' same v = rw same.state (record {
  ordered = v.ordered;
  numbered = v.numbered;
  committed = v.committed;
  hashed = v.hashed;
  sealed = v.sealed;
  receipts = v.receipts;
  cache = v.cache;
  bounded = v.bounded;
})

pub SameBut-money :
    (s s' : Engine)
    → SameBut s s'
    → (s'.db.receipts ≡ s.db.receipts) × (s'.db.deposits ≡ s.db.deposits)
SameBut-money s s' same = rw same.state (refl, refl)
