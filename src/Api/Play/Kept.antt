-- ===== src/Api/Play/Kept.antt =====
-- The plays of PlayController keep the engine sound and the operators covered.
use foreseer.Base.{
  ℕ, ◌+◌, ◌≤◌, ◌≡◌, ◌≢◌, refl, sym, subst, String, true, false, Option, none, some, arith, ◌==◌,
  nat_eq, string_eq, if◌then◌else◌, inl, inr, ◌⊎◌, Option-cases, Bool-cases,
}
use foreseer.Base.Int.{ℤ}
use foreseer.Base.Exec.{Error, Result, Result-cases, err, api}
use foreseer.Json.{Value, get}
use foreseer.Sdk.{Bytes, Sdk, SdkLaws}
use foreseer.Db.{Db, OperatorRow, RuleRow, rule_by_hash}
use foreseer.Engine.{Engine, Config, PlayInput, Played, or_default, play}
use foreseer.Engine.Sound.{IsSound}
use foreseer.Engine.Play.{
  play-IsSound, play-rules, play_answers, Answer, bad_seed, bad_nonce, placed,
}
use foreseer.Funds.{operator_funds}
use foreseer.Funds.Sums.{spent, deposited, operator_funds-sums}
use foreseer.Api.Rules.{load_rule, rule_by_hash-RulesAreHashed}
use foreseer.Api.Play.{is_prepaid, can_pay, play_checked, play_handler, text_or, nonce_of}

module _ (sdk : Sdk) (config : Config) (price : ℕ) where
  abbrev pub input_of : OperatorRow → String → Option ℤ → Value → PlayInput
  input_of operator client_seed nonce rule = record {
    operator_id = operator.id;
    client_seed = client_seed;
    rule = rule;
    nonce = nonce;
    price_wei = some price;
  }

  module _ (operator : OperatorRow) (client_seed hash : String) (nonce : Option ℤ) (now : ℕ)
      (seed : Bytes) where
    pub play_checked-charged :
        (s : Engine) (row : RuleRow)
        → can_pay (is_prepaid operator.owner_wallet price) price (operator_funds s.db operator.id)
          ≡ true
        → rule_by_hash hash s.db.rules ≡ some row
        → play_checked sdk config price operator client_seed hash nonce now seed s
          ≡ play sdk config (input_of operator client_seed nonce row.rule_json) now seed s
    unfolding load_rule
    play_checked-charged s row c r = ground arith

    pub play_checked-unknown :
        (s : Engine)
        → can_pay (is_prepaid operator.owner_wallet price) price (operator_funds s.db operator.id)
          ≡ true
        → rule_by_hash hash s.db.rules ≡ none
        → play_checked sdk config price operator client_seed hash nonce now seed s
          ≡ (err (api 404 "unknown ruleHash, register it via POST /rules"), s)
    unfolding load_rule
    play_checked-unknown s c r = ground arith

    pub play_checked-unpaid :
        (s : Engine)
        → can_pay (is_prepaid operator.owner_wallet price) price (operator_funds s.db operator.id)
          ≡ false
        → play_checked sdk config price operator client_seed hash nonce now seed s
          ≡ (err (api 402 "insufficient balance, top up via POST /billing/topup"), s)
    play_checked-unpaid s c = ground arith

    play_checked-IsSound :
        (s : Engine)
        → IsSound sdk config s
        → IsSound sdk config
            (play_checked sdk config price operator client_seed hash nonce now seed s).1
    play_checked-IsSound s v =
        elim (Bool-cases (
          can_pay (is_prepaid operator.owner_wallet price) price
            (operator_funds s.db operator.id))) [
              | inr c ↦ rw (play_checked-unpaid s c) v
              | inl c ↦ elim (Option-cases (rule_by_hash hash s.db.rules)) [
                | inl r ↦ rw (play_checked-unknown s c r) v
                | inr (row, r) ↦
                    let name = rule_by_hash-RulesAreHashed sdk hash s.db.rules row v.hashed r in
                    rw (play_checked-charged s row c r) (
                      play-IsSound sdk config (input_of operator client_seed nonce row.rule_json)
                        now seed s row (rw name r) refl v)
              ]
            ]

    play_checked-rules :
        (s : Engine)
        → IsSound sdk config s
        → (play_checked sdk config price operator client_seed hash nonce now seed s).1.db.rules
          ≡ s.db.rules
    play_checked-rules s v =
        elim (Bool-cases (
          can_pay (is_prepaid operator.owner_wallet price) price
            (operator_funds s.db operator.id))) [
              | inr c ↦ rw (play_checked-unpaid s c) refl
              | inl c ↦ elim (Option-cases (rule_by_hash hash s.db.rules)) [
                | inl r ↦ rw (play_checked-unknown s c r) refl
                | inr (row, r) ↦ rw (play_checked-charged s row c r) (
                    play-rules sdk config (input_of operator client_seed nonce row.rule_json) now
                      seed s v)
              ]
            ]

-- What the operator has spent is covered by its deposits.
abbrev pub IsCovered : ℕ → Db → Type 0
IsCovered id db = spent id none db.receipts ≤ deposited id db.deposits

module _ (sdk : Sdk) (config : Config) (input : PlayInput) (now : ℕ) (seed : Bytes)
    (s : Engine) where
  -- A play costs its operator its price at most, and nobody else anything.
  Answer-cost :
      (id : ℕ) (x : Result Played × Engine)
      → Answer sdk config input now seed s x
      → (spent id none x.1.db.receipts
          ≤ spent id none s.db.receipts
            + (if input.operator_id == id then or_default input.price_wei 0 else 0))
        × (x.1.db.deposits ≡ s.db.deposits)
  Answer-cost id x (bad_seed message a) = ground arith
  Answer-cost id x (bad_nonce e n a o c f r d) = ground arith
  Answer-cost id x (placed e p row a o i f b n rr sg op pr r d) = (rw r (ground arith), d)

can_pay-le :
    (owner : Option String) (wallet : String) (price id : ℕ) (db : Db)
    → owner ≡ some wallet
    → can_pay (is_prepaid owner price) price (operator_funds db id) ≡ true
    → IsCovered id db
    → spent id none db.receipts + price ≤ deposited id db.deposits
can_pay-le owner wallet price id db o c h = ground (arith, operator_funds-sums db id)

covered-after :
    (operator : OperatorRow) (price id : ℕ) (wallet : String) (db : Db) (after : ℕ)
    → (operator.id ≢ id) ⊎ (operator.owner_wallet ≡ some wallet)
    → can_pay (is_prepaid operator.owner_wallet price) price (operator_funds db operator.id) ≡ true
    → IsCovered id db
    → after ≤ spent id none db.receipts + (if operator.id == id then price else 0)
    → after ≤ deposited id db.deposits
covered-after operator price id wallet db after (inl o) c h k = ground arith
covered-after operator price id wallet db after (inr o) c h k =
    elim (Bool-cases (operator.id == id)) [
      | inr e ↦ ground arith
      | inl e ↦
          let same : operator.id ≡ id = ground arith in
          let paid =
            can_pay-le operator.owner_wallet wallet price operator.id db o c
              (subst (λ i. IsCovered i db) (sym same) h) in
          let paid' : spent id none db.receipts + price ≤ deposited id db.deposits =
            subst (λ i. spent i none db.receipts + price ≤ deposited i db.deposits) same paid in
          ground arith
    ]

module _ (sdk : Sdk) (config : Config) (price : ℕ) (operator : OperatorRow) (now : ℕ)
    (seed : Bytes) where
  play_checked-IsCovered :
      (client_seed hash : String) (nonce : Option ℤ) (s : Engine) (id : ℕ) (wallet : String)
      → SdkLaws sdk
      → IsSound sdk config s
      → (operator.id ≢ id) ⊎ (operator.owner_wallet ≡ some wallet)
      → IsCovered id s.db
      → IsCovered id (play_checked sdk config price operator client_seed hash nonce now seed s).1.db
  play_checked-IsCovered client_seed hash nonce s id wallet laws v o h =
      elim (Bool-cases (
        can_pay (is_prepaid operator.owner_wallet price) price (operator_funds s.db operator.id))) [
          | inr c ↦
              rw (play_checked-unpaid sdk config price operator client_seed hash nonce now seed s c)
                h
          | inl c ↦ elim (Option-cases (rule_by_hash hash s.db.rules)) [
            | inl r ↦
                rw
                  (play_checked-unknown sdk config price operator client_seed hash nonce now seed s
                    c r)
                  h
            | inr (row, r) ↦
                let input = input_of sdk config price operator client_seed nonce row.rule_json in
                let (cost, same) =
                  Answer-cost sdk config input now seed s id (play sdk config input now seed s)
                    (play_answers sdk config input now seed s laws v) in
                rw
                  (play_checked-charged sdk config price operator client_seed hash nonce now seed s
                    row c r)
                  (rw same (covered-after operator price id wallet s.db _ o c h cost))
          ]
        ]

module _ (sdk : Sdk) (config : Config) (price : ℕ) (operator : OperatorRow) (body : Value) (now : ℕ)
    (seed : Bytes) (s : Engine) where
  pub play_handler_cases :
      ((e : Error) × (play_handler sdk config price operator body now seed s ≡ (err e, s)))
      ⊎ ((client_seed : String) × (hash : String) × (nonce : Option ℤ) × (play_handler sdk config
              price operator body now seed s
            ≡ play_checked sdk config price operator client_seed hash nonce now seed s))
  unfolding play_handler
  play_handler_cases =
      elim (Result-cases (text_or (get body "clientSeed") (err (api 400 "clientSeed required")))) [
        | inl (e, q) ↦ inl (e, ground arith)
        | inr (client_seed, q) ↦
            elim (Result-cases
              (text_or (get body "ruleHash") (err (api 400 "ruleHash required")))) [
                | inl (e, r) ↦ inl (e, ground arith)
                | inr (hash, r) ↦ elim (Result-cases (nonce_of (get body "nonce"))) [
                  | inl (e, n) ↦ inl (e, ground arith)
                  | inr (nonce, n) ↦ inr (client_seed, hash, nonce, ground arith)
                ]
              ]
      ]

  pub play_handler-rules :
      IsSound sdk config s
      → (play_handler sdk config price operator body now seed s).1.db.rules ≡ s.db.rules
  play_handler-rules v = elim play_handler_cases [
    | inl (e, q) ↦ rw q refl
    | inr (client_seed, hash, nonce, q) ↦
        rw q (play_checked-rules sdk config price operator client_seed hash nonce now seed s v)
  ]

  -- A play request keeps the engine sound, however it ends.
  pub play_handler-IsSound :
      IsSound sdk config s
      → IsSound sdk config (play_handler sdk config price operator body now seed s).1
  play_handler-IsSound v = elim play_handler_cases [
    | inl (e, q) ↦ rw q v
    | inr (client_seed, hash, nonce, q) ↦
        rw q (play_checked-IsSound sdk config price operator client_seed hash nonce now seed s v)
  ]

  -- A prepaid operator never spends more than it deposited: its own plays are covered, and the plays
  -- of others cost it nothing.
  pub play_handler-IsCovered :
      (id : ℕ) (wallet : String)
      → SdkLaws sdk
      → IsSound sdk config s
      → (operator.id ≢ id) ⊎ (operator.owner_wallet ≡ some wallet)
      → IsCovered id s.db
      → IsCovered id (play_handler sdk config price operator body now seed s).1.db
  play_handler-IsCovered id wallet laws v o h = elim play_handler_cases [
    | inl (e, q) ↦ rw q h
    | inr (client_seed, hash, nonce, q) ↦ rw q (
        play_checked-IsCovered sdk config price operator now seed client_seed hash nonce s id wallet
          laws v o h)
  ]
