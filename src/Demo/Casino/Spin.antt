-- ===== src/Demo/Casino/Spin.antt =====
-- What the demo casino answers to a spin.
use Prim.Native.String.{◌++◌}
use foreseer.Base.{
  ℕ, ◌≡◌, refl, sym, subst, String, false, Option, none, some, arith, ◌==◌, nat_eq, string_eq, inl,
  inr, Bool-cases, Option-cases,
}
use foreseer.Base.Text.{decimal}
use foreseer.Base.Exec.{Error, Result, ok, err, api, thrown, Result-cases}
use foreseer.Json.{Value, get}
use foreseer.Sdk.{Bytes, SdkLaws, AcceptsSigner}
use foreseer.Engine.{Played}
use foreseer.Engine.Sound.{IsSound}
use foreseer.Api.Filter.{error_response}
use foreseer.Demo.Client.{client_domain}
use foreseer.Demo.Casino.{
  Casino, CasinoSdk, Served, SpinAnswer, rule_for, seed_of, play_as, ensure_registered, answer_to,
  check_played, play_request, spin,
}
use foreseer.Demo.Casino.Calls.{
  IsClientSeed, seed_cases, is_registered, registration, with_rule, IsReady, placing, Accepted,
  ensure_registered-ready, IsReady-cases, with_rule-IsSound, placing-signed, own-Accepted,
}

module _ (served : Served) (casino : CasinoSdk) (key : Option String) (now now_ms : ℕ) where
  module _ (body : Value) (fresh : Bytes) (c : Casino) where
    -- The request has a client seed and a bet with a rule, and the casino a key.
    pub record Asks (client_seed : String) (rule : Value) (k : String) : Type 0 where
      pub seed : IsClientSeed casino (get body "clientSeed") client_seed
      pub bet : rule_for casino (get body "bet") ≡ some rule
      pub key_of : key ≡ some k

    -- Every answer of the casino, with its condition.
    pub data Spun : Result SpinAnswer → Type 0 where
      bad_seed :
          ((n : String) → ¬ (IsClientSeed casino (get body "clientSeed") n))
          → Spun (err (api 400 "clientSeed must match ^[A-Za-z0-9_-]{1,64}$"))
      bad_bet :
          (s : String)
          → IsClientSeed casino (get body "clientSeed") s
          → rule_for casino (get body "bet") ≡ none
          → Spun (
              err (
                api 400
                  "bet must be straight 0..36, red, black, even, odd, low, high, dozen or column"))
      keyless :
          (s : String) (rule : Value)
          → IsClientSeed casino (get body "clientSeed") s
          → rule_for casino (get body "bet") ≡ some rule
          → key ≡ none
          → Spun (err thrown)
      unregistered :
          (s : String) (rule : Value) (k : String) (e : Error)
          → Asks s rule k
          → is_registered served casino key now now_ms rule c ≡ false
          → (registration served casino key now now_ms k rule c).0 ≡ err e
          → Spun (err thrown)
      unpaid :
          (s : String) (rule : Value) (k : String) (e : Error)
          → Asks s rule k
          → IsReady served casino key now now_ms k rule c
          → (placing served casino key now now_ms k s rule fresh
              (with_rule served casino key now now_ms k rule c)).0
            ≡ err e
          → (error_response e).status ≡ 402
          → Spun (err (api 402 "casino balance empty, run: node topup.mjs"))
      not_played :
          (s : String) (rule : Value) (k : String) (e : Error)
          → Asks s rule k
          → IsReady served casino key now now_ms k rule c
          → (placing served casino key now now_ms k s rule fresh
              (with_rule served casino key now now_ms k rule c)).0
            ≡ err e
          → ¬ ((error_response e).status ≡ 402)
          → Spun (err (api 502 ("foreseer /play failed: " ++ decimal (error_response e).status)))
      paid_out :
          (s : String) (rule : Value) (k : String) (p : Played)
          → Asks s rule k
          → IsReady served casino key now now_ms k rule c
          → (placing served casino key now now_ms k s rule fresh
              (with_rule served casino key now now_ms k rule c)).0
            ≡ ok p
          → Accepted served casino key now now_ms p
          → Spun (ok (answer_to served casino key p))

    same_spun : (r r' : Result SpinAnswer) → r' ≡ r → Spun r → Spun r'
    same_spun r r' p v = subst Spun (sym p) v

    spin-ready :
        (s : String) (rule : Value) (k : String)
        → Asks s rule k
        → seed_of casino (get body "clientSeed") ≡ some s
        → IsReady served casino key now now_ms k rule c
        → (spin served casino key body now now_ms fresh c).0
          ≡ (check_played served casino key
              (placing served casino key now now_ms k s rule fresh
                (with_rule served casino key now now_ms k rule c)).0
              (placing served casino key now now_ms k s rule fresh
                (with_rule served casino key now now_ms k rule c)).1).0
    unfolding spin
    spin-ready s rule k a q ready =
        rw
          (
            q,
            a.bet,
            ensure_registered-ready served casino key now now_ms rule k c a.key_of ready,
            a.key_of,
          )
          refl

    spin-refused :
        (s : String) (rule : Value) (k : String) (e : Error)
        → Asks s rule k
        → seed_of casino (get body "clientSeed") ≡ some s
        → is_registered served casino key now now_ms rule c ≡ false
        → (registration served casino key now now_ms k rule c).0 ≡ err e
        → (spin served casino key body now now_ms fresh c).0 ≡ err thrown
    unfolding spin ensure_registered
    spin-refused s rule k e a q n r = rw (q, a.bet, n, a.key_of, r) refl

    spin-keyless :
        (s : String) (rule : Value)
        → seed_of casino (get body "clientSeed") ≡ some s
        → rule_for casino (get body "bet") ≡ some rule
        → key ≡ none
        → (spin served casino key body now now_ms fresh c).0 ≡ err thrown
    unfolding spin ensure_registered
    spin-keyless s rule q b o =
        elim (Bool-cases (is_registered served casino key now now_ms rule c)) [
          | inl known ↦ rw (q, b, known, o) refl
          | inr new ↦ rw (q, b, new, o) refl
        ]

    -- The end of a spin whose play was asked for.
    check_played-Spun :
        (s : String) (rule : Value) (k : String) (r : Result Played)
        → Asks s rule k
        → IsReady served casino key now now_ms k rule c
        → (placing served casino key now now_ms k s rule fresh
            (with_rule served casino key now now_ms k rule c)).0
          ≡ r
        → ((p : Played) → r ≡ ok p → Accepted served casino key now now_ms p)
        → Spun
            (check_played served casino key r
              (placing served casino key now now_ms k s rule fresh
                (with_rule served casino key now now_ms k rule c)).1).0
    check_played-Spun s rule k (ok p) a ready q good =
        same_spun (ok (answer_to served casino key p)) _ (rw (good p refl) refl)
          (paid_out s rule k p a ready q (good p refl))
    check_played-Spun s rule k (err e) a ready q good =
        elim (Bool-cases ((error_response e).status == 402)) [
          | inl poor ↦
              same_spun (err (api 402 "casino balance empty, run: node topup.mjs")) _ (rw poor refl)
                (unpaid s rule k e a ready q (ground arith))
          | inr other ↦
              same_spun
                (err (api 502 ("foreseer /play failed: " ++ decimal (error_response e).status))) _
                (rw other refl) (not_played s rule k e a ready q (λ h. ground arith))
        ]

    spin-asked :
        (s : String) (rule : Value) (k : String)
        → SdkLaws served.sdk
        → AcceptsSigner served.sdk casino.verify_signature
        → served.config.tee_id ≡ served.sdk.address_of_private_key served.config.key
        → served.config.domain ≡ client_domain served.config.domain.chain_id
        → IsSound served.sdk served.config c.server
        → Asks s rule k
        → seed_of casino (get body "clientSeed") ≡ some s
        → Spun (spin served casino key body now now_ms fresh c).0
    spin-asked s rule k laws trust own domain v a q =
        elim (IsReady-cases served casino key now now_ms k rule c) [
          | inl (n, (e, r)) ↦
              same_spun _ _ (spin-refused s rule k e a q n r) (unregistered s rule k e a n r)
          | inr ready ↦ same_spun _ _ (spin-ready s rule k a q ready) (
              check_played-Spun s rule k _ a ready refl (λ p h.
                let (x, made) =
                  placing-signed served casino key now now_ms k s rule fresh
                    (with_rule served casino key now now_ms k rule c) p
                    (with_rule-IsSound served casino key now now_ms k rule c v) h in
                own-Accepted served casino key now now_ms p x laws trust own domain made))
        ]

    -- In front of a sound server that signs with its own key in the casino's domain, a spin is
    -- answered by the first that applies: a bad request for a text that is no client seed, and one
    -- for a bet without a rule; an exception where the casino has no key or the server does not
    -- take the rule; the empty balance if the server answers the play with status 402, and the
    -- failed play with its status on another error; else the play that the server placed, whose
    -- signature was accepted: a receipt of the server is never rejected.
    pub spin-Spun :
        SdkLaws served.sdk
        → AcceptsSigner served.sdk casino.verify_signature
        → served.config.tee_id ≡ served.sdk.address_of_private_key served.config.key
        → served.config.domain ≡ client_domain served.config.domain.chain_id
        → IsSound served.sdk served.config c.server
        → Spun (spin served casino key body now now_ms fresh c).0
    unfolding spin
    spin-Spun laws trust own domain v = elim (seed_cases casino (get body "clientSeed")) [
      | inl (q, bad) ↦ same_spun _ _ (rw q refl) (bad_seed bad)
      | inr (s, q, seed) ↦ elim (Option-cases (rule_for casino (get body "bet"))) [
        | inl b ↦ same_spun _ _ (rw (q, b) refl) (bad_bet s seed b)
        | inr (rule, b) ↦ elim (Option-cases key) [
          | inl o ↦ same_spun _ _ (spin-keyless s rule q b o) (keyless s rule seed b o)
          | inr (k, o) ↦
              spin-asked s rule k laws trust own domain v
                (record { seed = seed; bet = b; key_of = o }) q
        ]
      ]
    ]

  -- A receipt whose signature the casino has checked.
  abbrev pub Trusted : SpinAnswer → Type 0
  Trusted a =
      (p : Played) × Accepted served casino key now now_ms p × (a ≡ answer_to served casino key p)

  check_played-Trusted :
      (r : Result Played) (c : Casino) (a : SpinAnswer)
      → (check_played served casino key r c).0 ≡ ok a
      → Trusted a
  check_played-Trusted (err e) c a h = elim (Bool-cases ((error_response e).status == 402)) [
    | inl poor ↦ absurd (ground arith)
    | inr other ↦ absurd (ground arith)
  ]
  check_played-Trusted (ok p) c a h =
      elim (Bool-cases
        (casino.verify_signature p.signed (client_domain served.config.domain.chain_id)
          (some served.config.tee_id)).accepted) [
            | inl good ↦ (p, good, ground arith)
            | inr bad ↦ absurd (ground arith)
          ]

  -- Whatever the server is, a spin that succeeds answers with the members of a play whose
  -- signature was accepted for the expected signer.
  pub spin-Trusted :
      (body : Value) (fresh : Bytes) (c : Casino) (a : SpinAnswer)
      → (spin served casino key body now now_ms fresh c).0 ≡ ok a
      → Trusted a
  unfolding spin
  spin-Trusted body fresh c a h = elim (Option-cases (seed_of casino (get body "clientSeed"))) [
    | inl bad ↦ absurd (ground (arith, rw bad at h))
    | inr (s, q) ↦ elim (Option-cases (rule_for casino (get body "bet"))) [
      | inl bad ↦ absurd (ground (arith, rw (q, bad) at h))
      | inr (rule, b) ↦
          let x = ensure_registered served casino key rule now c in
          elim (Result-cases x.0) [
            | inl (e, r) ↦ absurd (ground (arith, rw (q, b, r) at h))
            | inr (hash, r) ↦ elim (Option-cases key) [
              | inl o ↦ absurd (ground (arith, rw (q, b, r, o) at h))
              | inr (k, o) ↦
                  check_played-Trusted
                    (play_as served casino key k (play_request served casino key s hash) now now_ms
                      fresh x.1).0
                    _ a (rw (q, b, r, o) at h)
            ]
          ]
    ]
  ]
