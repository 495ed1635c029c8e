-- ===== src/Api/Rules.antt =====
-- RulesController and `loadRule`.
use foreseer.Base.{
  ℕ, ◌≡◌, refl, String, Bool, true, false, Option, none, some, List, [], ◌∷◌, arith, find, any,
  ◌==◌, string_eq, text_iff, if◌then◌else◌, inl, inr, Bool-cases,
}
use foreseer.Base.Exec.{Result, ok, err, api, Exec, pure, modify, guard, ◌>>◌}
use foreseer.Base.Text.{codes, is_0x, is_lower_hex_digit}
use foreseer.Json.{Value, get}
use foreseer.Sdk.{Sdk}
use foreseer.Db.{Db, RuleRow, rule_by_hash, insert_rule}
use foreseer.Engine.{Engine, Config}
use foreseer.Engine.Sound.{IsSound, RulesAreHashed}
use foreseer.Engine.Frame.{ReceiptsAreSound-rules}

-- HASH: /^0x[0-9a-f]{64}$/.
unfoldable pub is_hash : String → Bool
is_hash s = is_0x is_lower_hex_digit 64 (codes s)

abbrev pub rule_json_of : Option RuleRow → Result Value
rule_json_of none = err (api 404 "unknown ruleHash, register it via POST /rules")
rule_json_of (some row) = ok row.rule_json

unfoldable pub load_rule : Db → String → Result Value
load_rule db hash = rule_json_of (rule_by_hash hash db.rules)

module _ (sdk : Sdk) where
  -- POST /rules, for the operator `operator_id`.
  unfoldable pub register : ℕ → Value → ℕ → Exec Engine String
  register operator_id body now = do
    let rule = get body "rule"
    guard (sdk.is_valid_rule rule) (api 400 "invalid rule (FORESEER-SPEC section 4.2)")
    let hash = sdk.rule_hash rule
    modify (λ s. record s {
      db = record s.db {
        rules =
            insert_rule
              (record {
                rule_hash = hash;
                operator_id = operator_id;
                rule_json = rule;
                created_at = now;
              })
              s.db.rules;
      };
    })
    pure hash

  -- GET /rules/:ruleHash.
  unfoldable pub fetch_rule : Db → String → Result Value
  unfolding is_hash load_rule
  fetch_rule db hash = if is_hash hash then load_rule db hash else err (api 404 "no such route")

  insert_rule-RulesAreHashed :
      (row : RuleRow) (rules : List RuleRow)
      → sdk.rule_hash row.rule_json ≡ row.rule_hash
      → RulesAreHashed sdk rules
      → RulesAreHashed sdk (insert_rule row rules)
  unfolding insert_rule
  insert_rule-RulesAreHashed row rules h v = ground arith

  pub rule_by_hash-RulesAreHashed :
      (hash : String) (rules : List RuleRow) (row : RuleRow)
      → RulesAreHashed sdk rules
      → rule_by_hash hash rules ≡ some row
      → sdk.rule_hash row.rule_json ≡ hash
  unfolding rule_by_hash
  rule_by_hash-RulesAreHashed hash [] row v h = ground arith
  rule_by_hash-RulesAreHashed hash (r ∷ rules) row v h =
      ground (arith, text_iff r.rule_hash hash, rule_by_hash-RulesAreHashed hash rules row v.1)

  find-any-none :
      (hash : String) (rules : List RuleRow)
      → any (λ r. r.rule_hash == hash) rules ≡ true
      → (row : RuleRow) × (find (λ r. r.rule_hash == hash) rules ≡ some row)
  find-any-none hash [] h = absurd (ground arith)
  find-any-none hash (r ∷ rules) h = elim (Bool-cases (r.rule_hash == hash)) [
    | inl e ↦ (r, ground arith)
    | inr e ↦ let (row, q) = find-any-none hash rules (ground arith) in (row, ground arith)
  ]

  inserted :
      (row : RuleRow) (rules : List RuleRow)
      → (x : RuleRow) × (rule_by_hash row.rule_hash (insert_rule row rules) ≡ some x)
  unfolding rule_by_hash insert_rule
  inserted row rules = elim (Bool-cases (any (λ r. r.rule_hash == row.rule_hash) rules)) [
    | inl e ↦ let (x, q) = find-any-none row.rule_hash rules e in (x, rw (e, q) refl)
    | inr e ↦ (row, ground (arith, text_iff row.rule_hash row.rule_hash))
  ]

  abbrev pub row_of : ℕ → Value → ℕ → RuleRow
  row_of operator_id body now = record {
    rule_hash = sdk.rule_hash (get body "rule");
    operator_id = operator_id;
    rule_json = get body "rule";
    created_at = now;
  }

  abbrev pub with_rule : ℕ → Value → ℕ → Engine → Engine
  with_rule operator_id body now s = record s {
    db = record s.db { rules = insert_rule (row_of operator_id body now) s.db.rules };
  }

  pub register-valid :
      (operator_id : ℕ) (body : Value) (now : ℕ) (s : Engine)
      → sdk.is_valid_rule (get body "rule") ≡ true
      → register operator_id body now s
        ≡ (ok (sdk.rule_hash (get body "rule")), with_rule operator_id body now s)
  unfolding register
  register-valid operator_id body now s h = ground arith

  pub register-invalid :
      (operator_id : ℕ) (body : Value) (now : ℕ) (s : Engine)
      → sdk.is_valid_rule (get body "rule") ≡ false
      → register operator_id body now s
        ≡ (err (api 400 "invalid rule (FORESEER-SPEC section 4.2)"), s)
  unfolding register
  register-invalid operator_id body now s h = ground arith

  -- A registered rule can be loaded by the hash that the answer gives, and what is loaded has that
  -- hash, whoever registered it first.
  pub load_rule-register :
      (config : Config) (operator_id : ℕ) (body : Value) (now : ℕ) (s s' : Engine) (hash : String)
      → IsSound sdk config s
      → register operator_id body now s ≡ (ok hash, s')
      → (rule : Value) × (load_rule s'.db hash ≡ ok rule) × (sdk.rule_hash rule ≡ hash)
  unfolding load_rule
  load_rule-register config operator_id body now s s' hash v h =
      elim (Bool-cases (sdk.is_valid_rule (get body "rule"))) [
        | inr bad ↦ absurd (ground (arith, register-invalid operator_id body now s bad))
        | inl good ↦
            let row = row_of operator_id body now in
            let done = register-valid operator_id body now s good in
            let same : s' ≡ with_rule operator_id body now s = ground arith in
            let name : hash ≡ row.rule_hash = ground arith in
            let (x, q) = inserted row s.db.rules in
            let all = insert_rule-RulesAreHashed row s.db.rules refl v.hashed in
            (
              x.rule_json,
              rw (same, name, q) refl,
              rw name
                  (rule_by_hash-RulesAreHashed row.rule_hash (insert_rule row s.db.rules) x all q),
            )
      ]

  with_rule-IsSound :
      (config : Config) (operator_id : ℕ) (body : Value) (now : ℕ) (s : Engine)
      → IsSound sdk config s
      → IsSound sdk config (with_rule operator_id body now s)
  with_rule-IsSound config operator_id body now s v =
      let row = row_of operator_id body now in
      record {
        ordered = v.ordered;
        numbered = v.numbered;
        committed = v.committed;
        hashed = insert_rule-RulesAreHashed row s.db.rules refl v.hashed;
        sealed = v.sealed;
        receipts =
            ReceiptsAreSound-rules sdk config s.db.epochs row s.db.rules s.db.receipts v.receipts;
        cache = v.cache;
        bounded = v.bounded;
      }

  -- Registering a rule keeps the engine sound, valid or not.
  pub register-IsSound :
      (config : Config) (operator_id : ℕ) (body : Value) (now : ℕ) (s : Engine)
      → IsSound sdk config s
      → IsSound sdk config (register operator_id body now s).1
  register-IsSound config operator_id body now s v =
      elim (Bool-cases (sdk.is_valid_rule (get body "rule"))) [
        | inl good ↦
            rw (register-valid operator_id body now s good)
              (with_rule-IsSound config operator_id body now s v)
        | inr bad ↦ rw (register-invalid operator_id body now s bad) v
      ]

  pub register-same :
      (operator_id : ℕ) (body : Value) (now : ℕ) (s : Engine)
      → ((register operator_id body now s).1.db.receipts ≡ s.db.receipts)
        × ((register operator_id body now s).1.db.deposits ≡ s.db.deposits)
  register-same operator_id body now s = elim (Bool-cases (sdk.is_valid_rule (get body "rule"))) [
    | inl good ↦ rw (register-valid operator_id body now s good) (refl, refl)
    | inr bad ↦ rw (register-invalid operator_id body now s bad) (refl, refl)
  ]
