-- ===== src/Demo/Setup/Again.antt =====
-- The setup script leaves a key that the server knows, and changes nothing but the chain when it runs
-- again.
use foreseer.Base.{
  ℕ, ◌==◌, nat_eq, string_eq, ◌≡◌, refl, sym, subst, String, false, Option, none, some, arith,
  Option-cases, Bool-cases, inl, inr, ◌⊎◌,
}
use foreseer.Base.Text.{to_lower_case}
use foreseer.Base.Exec.{Result, ok, Result-cases}
use foreseer.Json.{Value}
use foreseer.Db.{Db, OperatorRow}
use foreseer.Engine.{Engine}
use foreseer.Guards.{Request, operator_guard, operator_by_key, admin_guard}
use foreseer.Api.Filter.{error_response}
use foreseer.Api.Billing.{balance}
use foreseer.Api.Operators.{Created, create_operator}
use foreseer.Api.Operators.Keys.{create_operator-operator_guard}
use foreseer.Demo.Setup.{
  Wallet, Provider, Env, Host, admin_key_or_default, if_set, wallet_or, no_headers, keep_key,
  create_as_admin, new_operator, operator_body, provision, fund, settings, setup,
}

-- The server has an operator with this key.
abbrev pub IsKnown : (String → String) → String → Db → Type 0
IsKnown sha256 key db = (row : OperatorRow) × (operator_by_key (sha256 key) db ≡ some row)

module _ (sha256 : String → String) (server_key : String) (price : ℕ) where
  -- A key that the server knows is kept, and one that is kept is known; the server stays as it is.
  keep_key-known :
      (key : String) (s : Engine)
      → IsKnown sha256 key s.db
      → keep_key sha256 server_key price (some key) s ≡ (ok (some key), s)
  unfolding keep_key operator_guard balance error_response
  keep_key-known key s (row, k) = ground arith

  keep_key-unknown :
      (key : String) (s : Engine)
      → operator_by_key (sha256 key) s.db ≡ none
      → keep_key sha256 server_key price (some key) s ≡ (ok none, s)
  unfolding keep_key operator_guard error_response
  keep_key-unknown key s k = ground arith

  -- The stored key is dropped, or it is a key that the server knows.
  keep_key_cases :
      (o : Option String) (s : Engine)
      → (keep_key sha256 server_key price o s ≡ (ok none, s))
        ⊎ ((key : String) × IsKnown sha256 key s.db
            × (keep_key sha256 server_key price o s ≡ (ok (some key), s)))
  unfolding keep_key
  keep_key_cases none s = inl refl
  keep_key_cases (some key) s = elim (Option-cases (operator_by_key (sha256 key) s.db)) [
    | inl q ↦ inl (keep_key-unknown key s q)
    | inr known ↦ inr (key, known, keep_key-known key s known)
  ]

  guard-known :
      (key : String) (db : Db) (row : OperatorRow)
      → operator_guard sha256 db (record no_headers { api_key = some key }) ≡ ok row
      → operator_by_key (sha256 key) db ≡ some row
  unfolding operator_guard
  guard-known key db row h = ground arith

  create_as_admin-IsKnown :
      (admin_key : String) (body : Value) (now : ℕ) (random : String) (s : Engine) (r : Created)
      → (create_as_admin sha256 server_key price admin_key body now random s).0 ≡ ok r
      → IsKnown sha256 r.api_key
          (create_as_admin sha256 server_key price admin_key body now random s).1.db
  unfolding admin_guard
  create_as_admin-IsKnown admin_key body now random s r h =
      let x = create_operator sha256 body now random s in
      let req : Request = record no_headers { api_key = some r.api_key } in
      elim (Bool-cases (sha256 admin_key == sha256 server_key)) [
        | inr q ↦ absurd (ground arith)
        | inl q ↦
            let made : x.0 ≡ ok r = rw q at h in
            let (row, g, i, n, w) =
              create_operator-operator_guard sha256 body now random s x.1 r req (ground arith)
                refl in
            rw q (row, guard-known r.api_key x.1.db row g)
      ]

  new_operator-IsKnown :
      (admin_key owner : String) (now : ℕ) (random key : String) (s : Engine)
      → (new_operator sha256 server_key price admin_key owner now random s).0 ≡ ok key
      → IsKnown sha256 key (new_operator sha256 server_key price admin_key owner now random s).1.db
  new_operator-IsKnown admin_key owner now random key s h =
      let body = operator_body owner in
      elim (Result-cases (create_as_admin sha256 server_key price admin_key body now random s).0) [
        | inl (e, q) ↦ absurd (ground (arith, rw q at h))
        | inr (r, q) ↦
            let named : r.api_key ≡ key = ground (arith, rw q at h) in
            let known = create_as_admin-IsKnown admin_key body now random s r q in
            rw q (
              subst
                (λ x.
                  IsKnown sha256 x
                    (create_as_admin sha256 server_key price admin_key body now random s).1.db)
                named known)
      ]

  provision-IsKnown :
      (stored : Option String) (admin_key owner : String) (now : ℕ) (random key : String)
      (s : Engine)
      → (provision sha256 server_key price stored admin_key owner now random s).0 ≡ ok key
      → IsKnown sha256 key
          (provision sha256 server_key price stored admin_key owner now random s).1.db
  unfolding provision
  provision-IsKnown stored admin_key owner now random key s h = elim (keep_key_cases stored s) [
    | inl q ↦ rw q (new_operator-IsKnown admin_key owner now random key s (rw q at h))
    | inr (k, known, q) ↦
        let same : k ≡ key = ground (arith, rw q at h) in
        rw q (subst (λ x. IsKnown sha256 x s.db) same known)
  ]

-- A wallet of the package has a private key that makes it again.
abbrev pub IsOwn : (String → Option Wallet) → Wallet → Type 0
IsOwn wallet_of w = (wallet_of w.private_key ≡ some w) × ((w.private_key == "") ≡ false)

if_set-if_set : (o : Option String) → if_set (if_set o) ≡ if_set o
if_set-if_set none = refl
if_set-if_set (some s) = ground arith

module _ (sha256 : String → String) (server_key : String) (price : ℕ) {C : Type 0}
    (wallet_of : String → Option Wallet) (provider : Provider C) where
  abbrev wallet_in : Wallet → Host C → Option Wallet
  wallet_in fresh w = wallet_or wallet_of fresh (if_set w.env.wallet_key)

  wallet_or-IsOwn :
      (fresh wallet : Wallet) (o : Option String)
      → IsOwn wallet_of fresh
      → ((k : String) (x : Wallet) → wallet_of k ≡ some x → IsOwn wallet_of x)
      → wallet_or wallet_of fresh o ≡ some wallet
      → IsOwn wallet_of wallet
  wallet_or-IsOwn fresh wallet none f l h = subst (IsOwn wallet_of) (ground arith) f
  wallet_or-IsOwn fresh wallet (some k) f l h = l k wallet h

  abbrev provisioned : Wallet → ℕ → String → Host C → Result String × Engine
  provisioned wallet now random w =
      provision sha256 server_key price w.env.operator_key (admin_key_or_default w.env.admin_key)
        (to_lower_case wallet.address) now random w.server

  setup-ended :
      (fresh : Wallet) (now : ℕ) (random : String) (w w' : Host C)
      → setup sha256 server_key price wallet_of provider fresh now random w ≡ (ok tt, w')
      → (wallet : Wallet) × (key : String) × (wallet_in fresh w ≡ some wallet)
        × ((provisioned wallet now random w).0 ≡ ok key)
        × (w'.server ≡ (provisioned wallet now random w).1)
        × (w'.env ≡ settings w.env key wallet)
  unfolding setup
  setup-ended fresh now random w w' h = elim (Option-cases (wallet_in fresh w)) [
    | inl n ↦ absurd (ground (arith, rw n at h))
    | inr (wallet, n) ↦ elim (Result-cases (provisioned wallet now random w).0) [
      | inl (e, q) ↦ absurd (ground (arith, rw (n, q) at h))
      | inr (key, q) ↦
          elim (Result-cases (fund provider wallet (if_set w.env.funder_key) w.chain).0) [
            | inl (e, f) ↦ absurd (ground (arith, rw (n, q, f) at h))
            | inr (u, f) ↦ (
              wallet,
              key,
              n,
              q,
              ground (arith, rw (n, q, f) at h),
              ground (arith, rw (n, q, f) at h),
            )
          ]
    ]
  ]

  provisioned-known :
      (wallet : Wallet) (now : ℕ) (random key : String) (w : Host C)
      → w.env.operator_key ≡ some key
      → IsKnown sha256 key w.server.db
      → provisioned wallet now random w ≡ (ok key, w.server)
  unfolding provision
  provisioned-known wallet now random key w o k =
      rw (o, keep_key-known sha256 server_key price key w.server k) refl

  -- What a run leaves where the key is known: the chain alone may change, by the funding.
  abbrev pub OnlyFunds : Wallet → Host C → Host C → Type 0
  OnlyFunds wallet w w' =
      (w'.server ≡ w.server)
      × (w'.env ≡ w.env)
      × (w'.chain ≡ (fund provider wallet (if_set w.env.funder_key) w.chain).1)

  setup-known :
      (fresh wallet : Wallet) (now : ℕ) (random key : String) (w : Host C)
      → w.env.operator_key ≡ some key
      → IsKnown sha256 key w.server.db
      → wallet_in fresh w ≡ some wallet
      → w.env ≡ settings w.env key wallet
      → OnlyFunds wallet w (setup sha256 server_key price wallet_of provider fresh now random w).1
  unfolding setup
  setup-known fresh wallet now random key w o k n e =
      let p = provisioned-known wallet now random key w o k in
      elim (Result-cases (fund provider wallet (if_set w.env.funder_key) w.chain).0) [
        | inl (x, f) ↦ rw (n, p, f) (refl, refl, refl)
        | inr (u, f) ↦ rw (n, p, f) (refl, sym e, refl)
      ]

  settings-again :
      (env : Env) (key : String) (wallet wallet' : Wallet)
      → wallet' ≡ wallet
      → settings env key wallet ≡ settings (settings env key wallet) key wallet'
  settings-again env key wallet wallet' e = rw (e, if_set-if_set env.funder_key) refl

  wallet_again :
      (fresh wallet : Wallet)
      → IsOwn wallet_of wallet
      → wallet_or wallet_of fresh (if_set (some wallet.private_key)) ≡ some wallet
  wallet_again fresh wallet (e, n) = rw n e

  -- After a run of the setup script that ends, with wallets whose private keys make them again,
  -- the server has an operator, active or suspended, with the key in the settings, and every
  -- further run, whether it ends or throws, leaves the server and the settings as they are; on the
  -- chain it does what the funding of the settings' wallet does, and nothing else.
  pub setup_again :
      (fresh fresh' : Wallet) (now now' : ℕ) (random random' : String) (w w' : Host C)
      → ((k : String) (x : Wallet) → wallet_of k ≡ some x → IsOwn wallet_of x)
      → IsOwn wallet_of fresh
      → setup sha256 server_key price wallet_of provider fresh now random w ≡ (ok tt, w')
      → (key : String) × (wallet : Wallet) × (w'.env.operator_key ≡ some key)
        × IsKnown sha256 key w'.server.db
        × (w'.env.wallet_key ≡ some wallet.private_key)
        × (wallet_of wallet.private_key ≡ some wallet)
        × OnlyFunds wallet w'
            (setup sha256 server_key price wallet_of provider fresh' now' random' w').1
  setup_again fresh fresh' now now' random random' w w' l f h =
      let (wallet, key, named, made, server, env) = setup-ended fresh now random w w' h in
      let own = wallet_or-IsOwn fresh wallet (if_set w.env.wallet_key) f l named in
      let known =
        provision-IsKnown sha256 server_key price w.env.operator_key
          (admin_key_or_default w.env.admin_key) (to_lower_case wallet.address) now random key
          w.server made in
      let stored : w'.env.operator_key ≡ some key = rw env refl in
      let still : IsKnown sha256 key w'.server.db = rw server known in
      let kept : w'.env.wallet_key ≡ some wallet.private_key = rw env refl in
      let again : wallet_in fresh' w' ≡ some wallet = rw env (wallet_again fresh' wallet own) in
      (
        key,
        wallet,
        stored,
        still,
        kept,
        own.0,
        setup-known fresh' wallet now' random' key w' stored still again
            (rw env (settings-again w.env key wallet wallet refl)),
      )
