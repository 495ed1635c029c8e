-- ===== src/Web/Dashboard/Owned.antt =====
-- Who a token was made for: what the server and the dashboard keep of it agrees, whatever happens.
use foreseer.Base.{
  ℕ, zero, suc, ◌+◌, ◌≡◌, String, some, [], ◌∷◌, arith, string_eq, Option-cases, inl, inr, length,
}
use foreseer.Base.JsMap.{JsMap, get, delete_first}
use foreseer.Base.JsMap.Entries.{Entries, Entries-get, Entries-set, Entries-delete_first}
use foreseer.Base.Exec.{Error, Result, ok, err, api, Result-cases}
use foreseer.Json as Json
use foreseer.Json.{Value, string}
use foreseer.Sdk.{Bytes, Sdk}
use foreseer.Engine.{Engine}
use foreseer.Api.Play.{text_or}
use foreseer.Wallet.{
  Entry, Sessions, Session, issue_nonce, Ttl, drop_expired, evict, prune, wallet_for, login,
}
use foreseer.Wallet.Login.{login-granted, login-MayLogIn}
use foreseer.Wallet.Text.{parse_wallet}
use foreseer.Api.Auth.{LoggedIn, auth_nonce, auth_login}
use foreseer.Api.Billing.{Me, me}
use foreseer.Api.Auth.Parsed.{auth_login-parsed}

-- `owner` says for which wallet each token is made.
module _ (owner : String → String) where
  abbrev OwnsEntry : String → Entry → Type 0
  OwnsEntry t e = owner t ≡ e.value

  abbrev pub SessionsAreOwned : Sessions → Type 0
  SessionsAreOwned s = Entries OwnsEntry s.tokens

  drop_expired-owned :
      (now : ℕ) (m : JsMap String Entry)
      → Entries OwnsEntry m
      → Entries OwnsEntry (drop_expired now m)
  unfolding drop_expired
  drop_expired-owned now [] h = tt
  drop_expired-owned now ((k, e) ∷ m) h = ground (arith, drop_expired-owned now m h.1)

  evict-owned :
      (cap rounds : ℕ) (m : JsMap String Entry)
      → Entries OwnsEntry m
      → Entries OwnsEntry (evict cap rounds m)
  unfolding evict
  evict-owned cap zero m h = h
  evict-owned cap (suc rounds) m h =
      let less = Entries-delete_first OwnsEntry m h in
      ground (arith, evict-owned cap rounds (delete_first m) less)

  prune-owned :
      (now : ℕ) (m : JsMap String Entry) → Entries OwnsEntry m → Entries OwnsEntry (prune now m)
  unfolding prune
  prune-owned now m h =
      let live = drop_expired now m in evict-owned _ (length live) live (drop_expired-owned now m h)

  -- The token of a login that succeeds is made for the wallet that logs in.
  abbrev pub IsIssued : Result LoggedIn → Type 0
  IsIssued (ok r) = owner r.token ≡ r.wallet
  IsIssued (err e) = Unit {0}

  module _ (sdk : Sdk) (keccak_256 : Bytes → Bytes) (ttl : Ttl) where
    login-same :
        (wallet signature : String) (now : ℕ) (token : String) (s : Sessions) (e : Error)
        → (login sdk keccak_256 ttl wallet signature now token s).0 ≡ err e
        → (login sdk keccak_256 ttl wallet signature now token s).1 ≡ s
    unfolding login
    login-same wallet signature now token s e q = ground arith

    login-owned :
        (wallet signature : String) (now : ℕ) (token : String) (s : Sessions)
        → SessionsAreOwned s
        → ((r : Session)
            → (login sdk keccak_256 ttl wallet signature now token s).0 ≡ ok r
            → owner r.token ≡ wallet)
        → SessionsAreOwned (login sdk keccak_256 ttl wallet signature now token s).1
    login-owned wallet signature now token s h o =
        let x = login sdk keccak_256 ttl wallet signature now token s in
        elim (Result-cases x.0) [
          | inl (e, q) ↦ rw (login-same wallet signature now token s e q) h
          | inr (r, q) ↦
              let m =
                login-MayLogIn sdk keccak_256 ttl wallet signature now token s x.1 r
                  (ground arith) in
              let g = login-granted sdk keccak_256 ttl wallet signature now token s m in
              let own : owner token ≡ wallet = ground (arith, o r q) in
              rw g (
                Entries-set OwnsEntry (prune now s.tokens) token
                  (record { value = wallet; expires = now + ttl.token })
                  (prune-owned now s.tokens h) own)
        ]

    pub auth_nonce-owned :
        (wallet : Value) (now : ℕ) (nonce : String) (s : Sessions)
        → SessionsAreOwned s
        → SessionsAreOwned (auth_nonce sdk keccak_256 ttl wallet now nonce s).1
    unfolding auth_nonce issue_nonce
    auth_nonce-owned wallet now nonce s h = elim (Result-cases (parse_wallet wallet)) [
      | inl (e, q) ↦ rw q h
      | inr (w, q) ↦ rw q h
    ]

    pub auth_login-owned :
        (body : Value) (now : ℕ) (token : String) (s : Sessions)
        → IsIssued (auth_login sdk keccak_256 ttl body now token s).0
        → SessionsAreOwned s
        → SessionsAreOwned (auth_login sdk keccak_256 ttl body now token s).1
    unfolding auth_login
    auth_login-owned body now token s i h =
        let sent = text_or (Json.get body "signature") (err (api 400 "signature required")) in
        elim (Result-cases (parse_wallet (Json.get body "wallet"))) [
          | inl (e, q) ↦ rw q h
          | inr (w, q) ↦ elim (Result-cases sent) [
            | inl (e, p) ↦ rw (q, p) h
            | inr (signature, p) ↦
                let same = auth_login-parsed sdk keccak_256 ttl body now token s w signature q p in
                rw same (login-owned w signature now token s h (λ r a. rw (same, a) at i))
          ]
        ]

  -- An account that the server shows for a token is that of the token's owner.
  pub me-wallet :
      (price : ℕ) (s : Sessions) (token : String) (now : ℕ) (engine : Engine) (m : Me)
      → SessionsAreOwned s
      → (me price s (some token) now engine).0 ≡ ok m
      → m.wallet ≡ owner token
  unfolding me wallet_for
  me-wallet price s token now engine m h q = elim (Option-cases (get s.tokens token)) [
    | inl none_there ↦ absurd (ground arith)
    | inr (entry, there) ↦
        let own = Entries-get OwnsEntry s.tokens token entry h there in ground arith
  ]
