-- ===== src/Api/Topup/Once.antt =====
-- What a topup credits: a transaction of the owner to the treasury, once.
use foreseer.Base.{
  ℕ, ◌<◌, ◌≤◌, ◌≡◌, refl, String, true, false, Option, none, some, List, [], ◌∷◌, arith, any, ◌==◌,
  nat_eq, string_eq, text_iff, ◌⊎◌, inl, inr, Option-cases, Bool-cases,
}
use foreseer.Base.Int.{ℤ, pos, negsuc}
use foreseer.Base.Exec.{Error, Result, ok, err, api}
use foreseer.Sdk.{Sdk}
use foreseer.Db.{OperatorRow, DepositRow}
use foreseer.Engine.{Engine, Config}
use foreseer.Engine.Sound.{IsSound}
use foreseer.Funds.{operator_funds}
use foreseer.Funds.Sums.{deposited}
use foreseer.Api.Topup.{ChainTx, Credited, positive, pays, is_owner, credit}

-- No transaction is credited twice.
abbrev pub CreditedOnce : List DepositRow → Type 0
CreditedOnce [] = Unit
CreditedOnce (d ∷ ds) = (any (λ x. x.tx_hash == d.tx_hash) ds ≡ false) × CreditedOnce ds

-- The two ends of a credit: refused with nothing changed, or one deposit more, of a transaction that
-- the owner sent to the treasury, that succeeded, and that was not credited before.
pub data CreditAnswer (operator : OperatorRow) (treasury hash : String) (fetched : Option ChainTx)
    (now : ℕ) (s : Engine) : Result Credited × Engine → Type 0 where
  refused : (e : Error) → CreditAnswer operator treasury hash fetched now s (err e, s)
  credited :
      (tx : ChainTx) (value : ℕ)
      → fetched ≡ some tx
      → tx.confirmed ≡ true
      → tx.success ≡ true
      → tx.to ≡ some treasury
      → operator.owner_wallet ≡ some tx.from
      → tx.value_wei ≡ pos value
      → 0 < value
      → any (λ d. d.tx_hash == hash) s.db.deposits ≡ false
      → (s' : Engine)
      → (s' ≡ record s {
        db = record s.db {
          deposits =
              record {
                tx_hash = hash;
                operator_id = operator.id;
                from_wallet = tx.from;
                amount_wei = value;
                created_at = now;
              }
              ∷ s.db.deposits;
        };
      })
      → CreditAnswer operator treasury hash fetched now s
          (ok (record { credited_wei = value; funds = operator_funds s'.db operator.id }), s')

pays-some : (treasury : String) (o : Option String) → pays treasury o ≡ true → o ≡ some treasury
pays-some treasury none h = absurd (ground arith)
pays-some treasury (some to) h = ground (arith, text_iff to treasury)

is_owner-some : (o : Option String) (from : String) → is_owner o from ≡ true → o ≡ some from
is_owner-some none from h = absurd (ground arith)
is_owner-some (some wallet) from h = ground (arith, text_iff from wallet)

positive-some : (z : ℤ) (n : ℕ) → positive z ≡ some n → (z ≡ pos n) × (0 < n)
positive-some (pos m) n h = ground arith
positive-some (negsuc m) n h = absurd (ground arith)

module _ (operator : OperatorRow) (treasury hash : String) (now : ℕ) (s : Engine) where
  abbrev row_of : ChainTx → ℕ → DepositRow
  row_of tx value = record {
    tx_hash = hash;
    operator_id = operator.id;
    from_wallet = tx.from;
    amount_wei = value;
    created_at = now;
  }

  abbrev with_deposit : ChainTx → ℕ → Engine
  with_deposit tx value = record s {
    db = record s.db { deposits = row_of tx value ∷ s.db.deposits };
  }

  -- The facts of a transaction that passes the guards.
  record Passes (fetched : Option ChainTx) (tx : ChainTx) (value : ℕ) : Type 0 where
    fetched_tx : fetched ≡ some tx
    is_confirmed : tx.confirmed ≡ true
    succeeded : tx.success ≡ true
    paid : pays treasury tx.to ≡ true
    owned : is_owner operator.owner_wallet tx.from ≡ true
    valued : positive tx.value_wei ≡ some value
    new : any (λ d. d.tx_hash == hash) s.db.deposits ≡ false

  credit-Passes :
      (fetched : Option ChainTx) (tx : ChainTx) (value : ℕ)
      → Passes fetched tx value
      → credit operator treasury hash fetched now s ≡ (
        ok (record {
          credited_wei = value;
          funds = operator_funds (with_deposit tx value).db operator.id;
        }),
        with_deposit tx value,
      )
  unfolding credit
  credit-Passes fetched tx value p =
      rw (p.fetched_tx, p.is_confirmed, p.succeeded, p.paid, p.owned, p.valued, p.new) refl

  credit_cases :
      (fetched : Option ChainTx)
      → ((e : Error) × (credit operator treasury hash fetched now s ≡ (err e, s)))
        ⊎ ((tx : ChainTx) × (value : ℕ) × Passes fetched tx value)
  unfolding credit
  credit_cases none = inl (api 404 "transaction not found", refl)
  credit_cases (some tx) = elim (Bool-cases tx.confirmed) [
    | inr a ↦ inl (api 409 "transaction not confirmed yet", rw a refl)
    | inl a ↦ elim (Bool-cases tx.success) [
      | inr b ↦ inl (api 400 "transaction failed onchain", rw (a, b) refl)
      | inl b ↦ elim (Bool-cases (pays treasury tx.to)) [
        | inr c ↦ inl (api 400 "transaction does not pay the treasury", rw (a, b, c) refl)
        | inl c ↦ elim (Bool-cases (is_owner operator.owner_wallet tx.from)) [
          | inr d ↦ inl (api 403 "transaction not sent by the owner wallet", rw (a, b, c, d) refl)
          | inl d ↦ elim (Option-cases (positive tx.value_wei)) [
            | inl v ↦ inl (api 400 "transaction transfers no value", rw (a, b, c, d, v) refl)
            | inr (value, v) ↦ elim (Bool-cases (any (λ x. x.tx_hash == hash) s.db.deposits)) [
              | inl n ↦ inl (api 409 "transaction already credited", rw (a, b, c, d, v, n) refl)
              | inr n ↦ inr (
                tx,
                value,
                record {
                  fetched_tx = refl;
                  is_confirmed = a;
                  succeeded = b;
                  paid = c;
                  owned = d;
                  valued = v;
                  new = n;
                },
              )
            ]
          ]
        ]
      ]
    ]
  ]

  -- Every answer of the crediting half of a topup: it is refused and nothing changes, or the
  -- transaction, which is of the operator's owner to the treasury, confirmed, successful, of a
  -- positive value and not credited before, is recorded with its value as a deposit of the
  -- operator.
  pub credit_answers :
      (fetched : Option ChainTx)
      → CreditAnswer operator treasury hash fetched now s
          (credit operator treasury hash fetched now s)
  credit_answers fetched = elim (credit_cases fetched) [
    | inl (e, q) ↦ rw q (refused e)
    | inr (tx, value, p) ↦
        let amount = positive-some tx.value_wei value p.valued in
        rw (credit-Passes fetched tx value p) (
          credited tx value p.fetched_tx p.is_confirmed p.succeeded
            (pays-some treasury tx.to p.paid) (is_owner-some operator.owner_wallet tx.from p.owned)
            amount.0 amount.1 p.new (with_deposit tx value) refl)
  ]

  -- A topup never credits a transaction twice, whenever the chain answers.
  pub credit-CreditedOnce :
      (fetched : Option ChainTx)
      → CreditedOnce s.db.deposits
      → CreditedOnce (credit operator treasury hash fetched now s).1.db.deposits
  credit-CreditedOnce fetched h = elim (credit_cases fetched) [
    | inl (e, q) ↦ rw q h
    | inr (tx, value, p) ↦ rw (credit-Passes fetched tx value p) (p.new, h)
  ]

  pub credit-IsSound :
      (sdk : Sdk) (config : Config) (fetched : Option ChainTx)
      → IsSound sdk config s
      → IsSound sdk config (credit operator treasury hash fetched now s).1
  credit-IsSound sdk config fetched v = elim (credit_cases fetched) [
    | inl (e, q) ↦ rw q v
    | inr (tx, value, p) ↦ rw (credit-Passes fetched tx value p) (record {
      ordered = v.ordered;
      numbered = v.numbered;
      committed = v.committed;
      hashed = v.hashed;
      sealed = v.sealed;
      receipts = v.receipts;
      cache = v.cache;
      bounded = v.bounded;
    })
  ]

  pub credit-rules :
      (fetched : Option ChainTx)
      → (credit operator treasury hash fetched now s).1.db.rules ≡ s.db.rules
  credit-rules fetched = elim (credit_cases fetched) [
    | inl (e, q) ↦ rw q refl
    | inr (tx, value, p) ↦ rw (credit-Passes fetched tx value p) refl
  ]

  -- A topup lowers nobody's deposits and touches no receipt.
  pub credit-le :
      (fetched : Option ChainTx) (id : ℕ)
      → (deposited id s.db.deposits
          ≤ deposited id (credit operator treasury hash fetched now s).1.db.deposits)
        × ((credit operator treasury hash fetched now s).1.db.receipts ≡ s.db.receipts)
  credit-le fetched id = elim (credit_cases fetched) [
    | inl (e, q) ↦ ground arith
    | inr (tx, value, p) ↦ rw (credit-Passes fetched tx value p) (ground arith)
  ]
