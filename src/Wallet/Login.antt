-- ===== src/Wallet/Login.antt =====
-- WalletSessions: who may log in, a nonce is good for one login, and a session lasts its time.
use foreseer.Base.{
  ℕ, ◌+◌, ◌≤◌, ◌≡◌, String, true, Option, none, some, arith, ltb, string_eq, if◌then◌else◌,
  Option-cases, inl, inr, text_iff, ◌↔◌,
}
use foreseer.Base.JsMap.{get, set, delete, get-set, get-delete}
use foreseer.Base.Exec.{ok, err, api}
use foreseer.Sdk.{Bytes, Sdk}
use foreseer.Wallet.Text.{login_message, recover_wallet}
use foreseer.Wallet.{
  Entry, Sessions, Session, Ttl, prune, is_wallet, store_session, wallet_for, login,
}

module _ (sdk : Sdk) (keccak_256 : Bytes → Bytes) (ttl : Ttl) (wallet : String) where
  -- The signature over the pending nonce was made by the wallet.
  pub record MayLogIn (signature : String) (now : ℕ) (s : Sessions) : Type 0 where
    pub entry : Entry
    pub pending : get s.nonces wallet ≡ some entry
    pub alive : now ≤ entry.expires
    pub signed :
        recover_wallet sdk keccak_256 (login_message wallet entry.value) signature ≡ some wallet

  abbrev pub after_login : ℕ → String → Sessions → Sessions
  after_login now token s = record s {
    nonces = delete s.nonces wallet;
    tokens = set (prune now s.tokens) token (record { value = wallet; expires = now + ttl.token });
    table =
        store_session now (record { token = token; wallet = wallet; expires = now + ttl.token })
          s.table;
  }

  pub login-granted :
      (signature : String) (now : ℕ) (token : String) (s : Sessions)
      → MayLogIn signature now s
      → login sdk keccak_256 ttl wallet signature now token s
        ≡ (ok (record { token = token; expires_at = now + ttl.token }), after_login now token s)
  unfolding login
  login-granted signature now token s m = ground (arith, text_iff wallet wallet)

  is_wallet_lem : (o : Option String) → is_wallet wallet o ≡ true → o ≡ some wallet
  is_wallet_lem none h = cc
  is_wallet_lem (some w) h = ground (arith, text_iff w wallet)

  pub login-MayLogIn :
      (signature : String) (now : ℕ) (token : String) (s s' : Sessions) (r : Session)
      → login sdk keccak_256 ttl wallet signature now token s ≡ (ok r, s')
      → MayLogIn signature now s
  unfolding login
  login-MayLogIn signature now token s s' r h = elim (Option-cases (get s.nonces wallet)) [
    | inl q ↦ absurd (ground arith)
    | inr (entry, q) ↦
        let o = recover_wallet sdk keccak_256 (login_message wallet entry.value) signature in
        record {
          entry = entry;
          pending = q;
          alive = ground arith;
          signed = is_wallet_lem o (ground arith);
        }
  ]

  -- A login succeeds exactly if the wallet signed its pending nonce in time; it returns the new
  -- token with its time of expiry, and removes the nonce.
  pub login_iff :
      (signature : String) (now : ℕ) (token : String) (s s' : Sessions) (r : Session)
      → (login sdk keccak_256 ttl wallet signature now token s ≡ (ok r, s')) ↔ (
          MayLogIn signature now s
          × (r ≡ record { token = token; expires_at = now + ttl.token })
          × (s' ≡ after_login now token s))
  login_iff signature now token s s' r = (
    λ h.
        let m = login-MayLogIn signature now token s s' r h in
        let g = login-granted signature now token s m in (m, ground arith, ground arith),
    λ m. ground (arith, login-granted signature now token s m.0),
  )

  -- A nonce is good for one login: after a login the next one of the wallet fails, whatever its
  -- signature and its time.
  pub login_once :
      (signature signature' : String) (now now' : ℕ) (token token' : String) (s s' : Sessions)
      (r : Session)
      → login sdk keccak_256 ttl wallet signature now token s ≡ (ok r, s')
      → login sdk keccak_256 ttl wallet signature' now' token' s'
        ≡ (err (api 401 "no pending nonce, request a new one"), s')
  unfolding login
  login_once signature signature' now now' token token' s s' r h =
      let m = login-MayLogIn signature now token s s' r h in
      let g = login-granted signature now token s m in
      let gone = get-delete s.nonces wallet wallet in ground (arith, text_iff wallet wallet, gone)

  -- The new token stands for the wallet until it expires, and for nobody after.
  pub wallet_for-login :
      (signature : String) (now t : ℕ) (token : String) (s s' : Sessions) (r : Session)
      → login sdk keccak_256 ttl wallet signature now token s ≡ (ok r, s')
      → wallet_for t r.token s' ≡ (if ltb r.expires_at t then none else some wallet)
  unfolding wallet_for
  wallet_for-login signature now t token s s' r h =
      let m = login-MayLogIn signature now token s s' r h in
      let g = login-granted signature now token s m in
      let entry : Entry = record { value = wallet; expires = now + ttl.token } in
      ground (arith, text_iff token token, get-set (prune now s.tokens) token token entry)
