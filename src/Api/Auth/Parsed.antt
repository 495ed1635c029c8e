-- ===== src/Api/Auth/Parsed.antt =====
-- What AuthController.login passes on, and which wallet its answer names.
use foreseer.Base.{ℕ, ◌≡◌, String, arith, string_eq, inl, inr}
use foreseer.Base.Text.{to_lower_case}
use foreseer.Base.Exec.{Error, Result, ok, err, api, Result-cases}
use foreseer.Json as Json
use foreseer.Json.{Value, string}
use foreseer.Sdk.{Bytes, Sdk}
use foreseer.Api.Play.{text_or}
use foreseer.Wallet.{Sessions, Session, Ttl, login}
use foreseer.Wallet.Text.{parse_wallet}
use foreseer.Api.Auth.{LoggedIn, auth_login}

module _ (sdk : Sdk) (keccak_256 : Bytes → Bytes) (ttl : Ttl) where
  abbrev pub named : String → Result Session → Result LoggedIn
  named wallet (err e) = err e
  named wallet (ok r) = ok (record { wallet = wallet; token = r.token; expires_at = r.expires_at })

  -- AuthController.login is the login of the wallet and the signature in the body.
  pub auth_login-parsed :
      (body : Value) (now : ℕ) (token : String) (s : Sessions) (wallet signature : String)
      → parse_wallet (Json.get body "wallet") ≡ ok wallet
      → text_or (Json.get body "signature") (err (api 400 "signature required")) ≡ ok signature
      → auth_login sdk keccak_256 ttl body now token s ≡ (
        named wallet (login sdk keccak_256 ttl wallet signature now token s).0,
        (login sdk keccak_256 ttl wallet signature now token s).1,
      )
  unfolding auth_login
  auth_login-parsed body now token s wallet signature q p =
      rw (q, p)
        (elim (Result-cases (login sdk keccak_256 ttl wallet signature now token s).0) [
          | inl (e, r) ↦ rw r
          | inr (a, r) ↦ rw r
        ])

  refused_wallet :
      (body : Value) (now : ℕ) (token : String) (s : Sessions) (r : LoggedIn) (e : Error)
      → parse_wallet (Json.get body "wallet") ≡ err e
      → ¬ ((auth_login sdk keccak_256 ttl body now token s).0 ≡ ok r)
  unfolding auth_login
  refused_wallet body now token s r e q h = cc (rw q at h)

  refused_signature :
      (body : Value) (now : ℕ) (token : String) (s : Sessions) (r : LoggedIn) (w : String)
      (e : Error)
      → parse_wallet (Json.get body "wallet") ≡ ok w
      → text_or (Json.get body "signature") (err (api 400 "signature required")) ≡ err e
      → ¬ ((auth_login sdk keccak_256 ttl body now token s).0 ≡ ok r)
  unfolding auth_login
  refused_signature body now token s r w e q p h = cc (rw (q, p) at h)

  -- A login answers with the wallet that the body names.
  pub auth_login-wallet :
      (body : Value) (now : ℕ) (token : String) (s : Sessions) (r : LoggedIn)
      → (auth_login sdk keccak_256 ttl body now token s).0 ≡ ok r
      → parse_wallet (Json.get body "wallet") ≡ ok r.wallet
  auth_login-wallet body now token s r h =
      let sent = text_or (Json.get body "signature") (err (api 400 "signature required")) in
      elim (Result-cases (parse_wallet (Json.get body "wallet"))) [
        | inl (e, q) ↦ absurd (refused_wallet body now token s r e q h)
        | inr (w, q) ↦ elim (Result-cases sent) [
          | inl (e, p) ↦ absurd (refused_signature body now token s r w e q p h)
          | inr (signature, p) ↦
              let same = auth_login-parsed body now token s w signature q p in
              elim (Result-cases (login sdk keccak_256 ttl w signature now token s).0) [
                | inl (e, l) ↦ absurd (ground (arith, rw (same, l) at h))
                | inr (a, l) ↦ ground (arith, rw (same, l) at h)
              ]
        ]
      ]

pub parse_wallet-lower : (s w : String) → parse_wallet (string s) ≡ ok w → w ≡ to_lower_case s
unfolding parse_wallet
parse_wallet-lower s w h = ground arith
