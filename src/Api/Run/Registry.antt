-- ===== src/Api/Run/Registry.antt =====
-- The registered rules under any calls: no call changes or drops one.
use foreseer.Base.{
  ℕ, ◌≡◌, refl, sym, ◌∙◌, subst, ap, String, true, some, List, [], ◌∷◌, arith, any, find, ◌==◌,
  string_eq, text_iff, ◌↔◌, Option-cases, inl, inr, Bool-cases,
}
use foreseer.Base.Exec.{ok}
use foreseer.Json.{Value, get}
use foreseer.Sdk.{Sdk}
use foreseer.Db.{RuleRow, rule_by_hash, insert_rule}
use foreseer.Engine.{Engine, Config}
use foreseer.Engine.Sound.{IsSound}
use foreseer.Engine.Open.{ensure_epoch-IsSound}
use foreseer.Engine.Tick.{tick-same}
use foreseer.Engine.Close.{close_open-same}
use foreseer.Engine.Answers.{proof_for-same}
use foreseer.Api.Operators.{create_operator, create_for_wallet, set_active}
use foreseer.Api.Operators.Frame.{
  SameBut, create_operator-SameBut, create_for_wallet-SameBut, set_active-SameBut,
}
use foreseer.Api.Rules.{
  load_rule, fetch_rule, is_hash, register, register-valid, register-invalid, row_of,
  load_rule-register, register-IsSound,
}
use foreseer.Api.Play.Kept.{play_handler-rules}
use foreseer.Api.Topup.Once.{credit-rules}
use foreseer.Api.Verify.Green.{verify-same}
use foreseer.Api.Run.Fair.{step-IsSound}
use foreseer.Api.Run.{
  Call, ensured, ticked, closed, registered, played, proved, verified, created, provided, switched,
  topped_up, step, run,
}

module _ (hash : String) (rule : Value) where
  -- The table has the document `rule` under `hash`.
  abbrev Loads : List RuleRow → Type 0
  Loads rules = (row : RuleRow) × (rule_by_hash hash rules ≡ some row) × (row.rule_json ≡ rule)

  find-any :
      (rules : List RuleRow) (row : RuleRow)
      → find (λ r. r.rule_hash == hash) rules ≡ some row
      → any (λ r. r.rule_hash == hash) rules ≡ true
  find-any [] row h = absurd (ground arith)
  find-any (r ∷ rules) row h = elim (Bool-cases (r.rule_hash == hash)) [
    | inl e ↦ ground arith
    | inr e ↦ ground (arith, find-any rules row (ground arith))
  ]

  Loads-insert :
      (row : RuleRow) (rules : List RuleRow) → Loads rules → Loads (insert_rule row rules)
  unfolding rule_by_hash insert_rule
  Loads-insert row rules (r, q, e) =
      elim (Bool-cases (any (λ x. x.rule_hash == row.rule_hash) rules)) [
        | inl known ↦ (r, rw known q, e)
        | inr new ↦ elim (Bool-cases (row.rule_hash == hash)) [
          | inr other ↦ (r, rw (new, other) q, e)
          | inl same ↦
              let name : row.rule_hash ≡ hash = (text_iff row.rule_hash hash).0 same in
              let there = find-any rules r q in
              absurd (
                ground
                  (arith, subst (λ h. any (λ x. x.rule_hash == h) rules ≡ true) (sym name) there))
        ]
      ]

  Loads-same : (s s' : Engine) → s'.db.rules ≡ s.db.rules → Loads s.db.rules → Loads s'.db.rules
  Loads-same s s' q h = subst Loads (sym q) h

  SameBut-Loads : (s s' : Engine) → SameBut s s' → Loads s.db.rules → Loads s'.db.rules
  SameBut-Loads s s' same h = Loads-same s s' (ap (λ x. x.db.rules) same.state) h

  module _ (sha256 : String → String) (sdk : Sdk) (config : Config) (price : ℕ) where
    step-Loads :
        (c : Call) (s : Engine)
        → IsSound sdk config s
        → Loads s.db.rules
        → Loads (step sha256 sdk config price c s).db.rules
    step-Loads (ensured now seed) s v h =
        let (e, s', q, o, v', rules, receipts, deposits) =
          ensure_epoch-IsSound sdk config now seed s v in
        Loads-same s (step sha256 sdk config price (ensured now seed) s)
          (ap (λ x. x.1.db.rules) q ∙ rules) h
    step-Loads (ticked now seed) s v h =
        let (receipts, deposits, rules) = tick-same sdk config now seed s v in
        Loads-same s (step sha256 sdk config price (ticked now seed) s) rules h
    step-Loads (closed now) s v h =
        let (receipts, deposits, rules) = close_open-same sdk config now s v in
        Loads-same s (step sha256 sdk config price (closed now) s) rules h
    step-Loads (registered operator_id body now) s v h =
        elim (Bool-cases (sdk.is_valid_rule (get body "rule"))) [
          | inl good ↦
              subst (λ x. Loads x.1.db.rules) (sym (register-valid sdk operator_id body now s good))
                (Loads-insert (row_of sdk operator_id body now) s.db.rules h)
          | inr bad ↦
              subst (λ x. Loads x.1.db.rules)
                (sym (register-invalid sdk operator_id body now s bad)) h
        ]
    step-Loads (played operator body now seed) s v h =
        Loads-same s (step sha256 sdk config price (played operator body now seed) s)
          (play_handler-rules sdk config price operator body now seed s v) h
    step-Loads (proved i b) s v h =
        Loads-same s (step sha256 sdk config price (proved i b) s)
          (ap (λ d. d.rules) (proof_for-same sdk config s i b v)) h
    step-Loads (verified i b) s v h =
        Loads-same s (step sha256 sdk config price (verified i b) s)
          (ap (λ d. d.rules) (verify-same sdk config s i b v)) h
    step-Loads (created body now random) s v h =
        SameBut-Loads s (create_operator sha256 body now random s).1
          (create_operator-SameBut sha256 body now random s) h
    step-Loads (provided sessions token body now random) s v h =
        SameBut-Loads s (create_for_wallet sha256 sessions token body now random s).1
          (create_for_wallet-SameBut sha256 body now random s sessions token) h
    step-Loads (switched id body) s v h =
        SameBut-Loads s (set_active id body s).1 (set_active-SameBut id body s) h
    step-Loads (topped_up operator treasury tx fetched now) s v h =
        Loads-same s (step sha256 sdk config price (topped_up operator treasury tx fetched now) s)
          (credit-rules operator treasury tx now s fetched) h

    run-Loads :
        (cs : List Call) (s : Engine)
        → IsSound sdk config s
        → Loads s.db.rules
        → Loads (run sha256 sdk config price cs s).db.rules
    run-Loads [] s v h = h
    run-Loads (c ∷ cs) s v h =
        run-Loads cs (step sha256 sdk config price c s) (step-IsSound sha256 sdk config price c s v)
          (step-Loads c s v h)

load_rule-Loads :
    (hash : String) (rule : Value) (s : Engine)
    → (load_rule s.db hash ≡ ok rule) ↔ Loads hash rule s.db.rules
unfolding load_rule
load_rule-Loads hash rule s = (
  (λ h. elim (Option-cases (rule_by_hash hash s.db.rules)) [
    | inl q ↦ absurd (ground arith)
    | inr (row, q) ↦ (row, q, ground arith)
  ]),
  (λ (row, q, e). ground arith),
)

-- On a sound server, after a registration that answers with a hash, one that has the form of a
-- hash, GET /rules with that hash shows one document, which has that hash, and shows it after any
-- further calls as well.
pub run-fetch_rule :
    (sha256 : String → String) (sdk : Sdk) (config : Config) (price operator_id now : ℕ)
    (body : Value) (hash : String) (s s' : Engine) (cs : List Call)
    → IsSound sdk config s
    → register sdk operator_id body now s ≡ (ok hash, s')
    → is_hash hash ≡ true
    → (rule : Value) × (sdk.rule_hash rule ≡ hash)
      × (fetch_rule sdk s'.db hash ≡ ok rule)
      × (fetch_rule sdk (run sha256 sdk config price cs s').db hash ≡ ok rule)
unfolding fetch_rule
run-fetch_rule sha256 sdk config price operator_id now body hash s s' cs v h k =
    let (rule, loaded, name) = load_rule-register sdk config operator_id body now s s' hash v h in
    let v' : IsSound sdk config s' =
      subst (λ x. IsSound sdk config x.1) h
        (register-IsSound sdk config operator_id body now s v) in
    let first = (load_rule-Loads hash rule s').0 loaded in
    let last = run-Loads hash rule sha256 sdk config price cs s' v' first in
    (
      rule,
      name,
      rw (k, loaded) refl,
      rw (k, (load_rule-Loads hash rule (run sha256 sdk config price cs s')).1 last) refl,
    )
