-- ===== src/Demo/Casino/Calls.antt =====
-- The calls that a spin of the demo casino makes: its own checks, POST /rules and POST /play.
use foreseer.Base.{
  ℕ, ◌≡◌, ◌⊎◌, refl, sym, subst, String, Bool, true, false, Option, none, some, ◌∷◌, any, arith,
  ◌==◌, nat_eq, string_eq, if◌then◌else◌, inl, inr, Bool-cases,
}
use foreseer.Base.Exec.{Error, Result, ok, err, thrown, Result-cases}
use foreseer.Json.{
  Value, object, field, end, undefined, null, fraction, boolean, integer, string, array,
}
use foreseer.Sdk.{Bytes, SdkLaws, Receipt, AcceptsSigner}
use foreseer.Engine.{Played}
use foreseer.Engine.Sound.{IsSound}
use foreseer.Guards.{operator_guard, play_rate_guard}
use foreseer.Api.Rules.{register-IsSound}
use foreseer.Api.Play.Signed.{play_handler-signed}
use foreseer.Demo.Client.{client_domain}
use foreseer.Demo.Casino.{
  Casino, CasinoSdk, Served, seed_of, keyed, register_as, play_as, ensure_registered, play_request,
}

module _ (casino : CasinoSdk) where
  -- The value is a text of the form of a client seed.
  abbrev pub IsClientSeed : Value → String → Type 0
  IsClientSeed v s = (v ≡ string s) × (casino.is_client_seed s ≡ true)

  string-same : (s n : String) → string s ≡ string n → s ≡ n
  string-same s n h = ground arith

  seed_of-text :
      (s : String)
      → ((seed_of casino (string s) ≡ none) × ((n : String) → ¬ (IsClientSeed (string s) n)))
        ⊎ (seed_of casino (string s) ≡ some s) × (casino.is_client_seed s ≡ true)
  seed_of-text s = elim (Bool-cases (casino.is_client_seed s)) [
    | inl good ↦ inr (ground arith, good)
    | inr bad ↦ inl (
      ground arith,
      λ n h.
          let same = subst (λ x. casino.is_client_seed x ≡ true) (sym (string-same s n h.0)) h.1 in
          absurd (ground arith),
    )
  ]

  pub seed_cases :
      (v : Value)
      → ((seed_of casino v ≡ none) × ((n : String) → ¬ (IsClientSeed v n)))
        ⊎ ((s : String) × (seed_of casino v ≡ some s) × IsClientSeed v s)
  seed_cases (string s) = elim (seed_of-text s) [
    | inl h ↦ inl h
    | inr (q, g) ↦ inr (s, q, (refl, g))
  ]
  seed_cases undefined = inl (refl, λ n h. absurd (ground (arith, h.0)))
  seed_cases null = inl (refl, λ n h. absurd (ground (arith, h.0)))
  seed_cases fraction = inl (refl, λ n h. absurd (ground (arith, h.0)))
  seed_cases (boolean b) = inl (refl, λ n h. absurd (ground (arith, h.0)))
  seed_cases (integer z) = inl (refl, λ n h. absurd (ground (arith, h.0)))
  seed_cases (array xs) = inl (refl, λ n h. absurd (ground (arith, h.0)))
  seed_cases (object fs) = inl (refl, λ n h. absurd (ground (arith, h.0)))

module _ (served : Served) (casino : CasinoSdk) (key : Option String) (now now_ms : ℕ) where
  abbrev pub rule_hash_of : Value → String
  rule_hash_of rule = served.sdk.rule_hash rule

  abbrev pub is_registered : Value → Casino → Bool
  is_registered rule c = any (λ h. h == rule_hash_of rule) c.registered

  -- POST /rules for the rule, with the casino's key.
  abbrev pub registration : String → Value → Casino → Result String × Casino
  registration k rule c = register_as served casino key k (object (field "rule" rule end)) now c

  -- The casino after ensureRegistered.
  abbrev pub with_rule : String → Value → Casino → Casino
  with_rule k rule c = if is_registered rule c then c else record (registration k rule c).1 {
    registered = rule_hash_of rule ∷ (registration k rule c).1.registered;
  }

  -- The rule is registered, or the server takes it.
  abbrev pub IsReady : String → Value → Casino → Type 0
  IsReady k rule c =
      (is_registered rule c ≡ true)
      ⊎ ((is_registered rule c ≡ false) × ((h : String) × ((registration k rule c).0 ≡ ok h)))

  pub ensure_registered-refused :
      (rule : Value) (k : String) (e : Error) (c : Casino)
      → key ≡ some k
      → is_registered rule c ≡ false
      → (registration k rule c).0 ≡ err e
      → (ensure_registered served casino key rule now c).0 ≡ err thrown
  unfolding ensure_registered
  ensure_registered-refused rule k e c q n r = rw (n, q, r) refl

  pub ensure_registered-ready :
      (rule : Value) (k : String) (c : Casino)
      → key ≡ some k
      → IsReady k rule c
      → ensure_registered served casino key rule now c
        ≡ (ok (rule_hash_of rule), with_rule k rule c)
  unfolding ensure_registered
  ensure_registered-ready rule k c q (inl known) = rw known refl
  ensure_registered-ready rule k c q (inr (n, (h, r))) = rw (n, q, r) refl

  pub IsReady-cases :
      (k : String) (rule : Value) (c : Casino)
      → ((is_registered rule c ≡ false) × ((e : Error) × ((registration k rule c).0 ≡ err e)))
        ⊎ IsReady k rule c
  IsReady-cases k rule c = elim (Bool-cases (is_registered rule c)) [
    | inl known ↦ inr (inl known)
    | inr new ↦ elim (Result-cases (registration k rule c).0) [
      | inl (e, r) ↦ inl (new, (e, r))
      | inr (h, r) ↦ inr (inr (new, (h, r)))
    ]
  ]

  -- A call with the casino's key keeps the engine of its server sound.
  registration-IsSound :
      (k : String) (rule : Value) (c : Casino)
      → IsSound served.sdk served.config c.server
      → IsSound served.sdk served.config (registration k rule c).1.server
  registration-IsSound k rule c v =
      let body = object (field "rule" rule end) in
      elim (Result-cases (operator_guard served.sha256 c.server.db (keyed k))) [
        | inl (e, q) ↦ rw q v
        | inr (op, q) ↦ rw q (register-IsSound served.sdk served.config op.id body now c.server v)
      ]

  pub with_rule-IsSound :
      (k : String) (rule : Value) (c : Casino)
      → IsSound served.sdk served.config c.server
      → IsSound served.sdk served.config (with_rule k rule c).server
  with_rule-IsSound k rule c v = elim (Bool-cases (is_registered rule c)) [
    | inl known ↦ rw known v
    | inr new ↦ rw new (registration-IsSound k rule c v)
  ]

  -- POST /play for a seed and a rule, with the casino's key.
  abbrev pub placing : String → String → Value → Bytes → Casino → Result Played × Casino
  placing k client_seed rule fresh c =
      play_as served casino key k (play_request served casino key client_seed (rule_hash_of rule))
        now now_ms fresh c

  -- What the server signs is what it answers to a play.
  pub placing-signed :
      (k client_seed : String) (rule : Value) (fresh : Bytes) (c : Casino) (p : Played)
      → IsSound served.sdk served.config c.server
      → (placing k client_seed rule fresh c).0 ≡ ok p
      → (x : Receipt) × (p.signed
          ≡ served.sdk.sign_receipt x served.config.domain served.config.key)
  placing-signed k client_seed rule fresh c p v h =
      let request = play_request served casino key client_seed (rule_hash_of rule) in
      elim (Result-cases (operator_guard served.sha256 c.server.db (keyed k))) [
        | inl (e, q) ↦ absurd (ground (arith, rw q at h))
        | inr (op, q) ↦ elim (Result-cases (play_rate_guard served.rate op.id now_ms c.windows).0) [
          | inl (e, r) ↦ absurd (ground (arith, rw (q, r) at h))
          | inr (b, r) ↦
              play_handler-signed served.sdk served.config served.price op now fresh c.server
                request p v (rw (q, r) at h)
        ]
      ]

  abbrev pub Accepted : Played → Type 0
  Accepted p =
      (casino.verify_signature p.signed (client_domain served.config.domain.chain_id)
        (some served.config.tee_id)).accepted
      ≡ true

  pub own-Accepted :
      (p : Played) (r : Receipt)
      → SdkLaws served.sdk
      → AcceptsSigner served.sdk casino.verify_signature
      → served.config.tee_id ≡ served.sdk.address_of_private_key served.config.key
      → served.config.domain ≡ client_domain served.config.domain.chain_id
      → p.signed ≡ served.sdk.sign_receipt r served.config.domain served.config.key
      → Accepted p
  own-Accepted p r laws trust own domain q =
      let config = served.config in
      let digest = laws.signed_receipt r config.domain config.key in
      let signer = laws.signer_of_signed r config.domain config.key in
      let recovered : served.sdk.recover_signer
            (served.sdk.receipt_digest p.signed.receipt config.domain) p.signed.signature
          ≡ some config.tee_id =
        rw (q, digest, signer, own) refl in
      subst (λ d. (casino.verify_signature p.signed d (some config.tee_id)).accepted ≡ true) domain
        (trust.accepts p.signed config.domain config.tee_id recovered)
