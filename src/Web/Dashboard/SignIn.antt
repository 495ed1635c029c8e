-- ===== src/Web/Dashboard/SignIn.antt =====
-- A sign-in that nothing disturbs ends with the account of the wallet.
use foreseer.Base.{
  ℕ, ◌+◌, ◌≤◌, ◌≡◌, refl, String, true, false, Option, none, some, List, [], ◌∷◌, arith, string_eq,
  text_iff, map, filter,
}
use foreseer.Base.JsMap.{JsMap, set, get-set}
use foreseer.Base.Text.{to_lower_case}
use foreseer.Base.Text.Lower.{to_lower_case-to_lower_case}
use foreseer.Base.Exec.{ok}
use foreseer.Json.{string}
use foreseer.Sdk.{Bytes, Sdk}
use foreseer.Engine.{Config}
use foreseer.Wallet.{Entry, Sessions, Ttl, prune, wallet_for, issue_nonce}
use foreseer.Wallet.Login.{MayLogIn, after_login, login-granted}
use foreseer.Wallet.Text.{parse_wallet, is_wallet_text, login_message, recover_wallet}
use foreseer.Api.Auth.{auth_nonce, auth_login}
use foreseer.Api.Billing.{Me, me, my_operator, order_by_id}
use foreseer.Api.Operators.{has_owner}
use foreseer.Web.Dashboard.{
  Session, loaded, signing, fresh, ask_me, ask_nonce, ask_login, Task, asked, World, Event,
  account_changed, served, signed, resumed, session_of, is_account, sign_in, resume, write_token,
  serve, handle, dashboard_run, token_of, login_body,
}
use foreseer.Api.Auth.Parsed.{auth_login-parsed}

-- An account is connected, and the server, the wallet and the page answer one another to the end.
abbrev pub sign_in_events : (a nonce signature token : String) (t1 t2 t3 : ℕ) → List Event
sign_in_events a nonce signature token t1 t2 t3 =
    account_changed (some a)
    ∷ served 0 t1 nonce
    ∷ resumed 0
    ∷ signed 0 signature
    ∷ resumed 0
    ∷ served 0 t2 token
    ∷ resumed 0
    ∷ served 0 t3 ""
    ∷ resumed 0
    ∷ []

module _ (sha256 : String → String) (sdk : Sdk) (keccak_256 : Bytes → Bytes) (config : Config)
    (ttl : Ttl) (price : ℕ) (a nonce signature token : String) (t1 t2 t3 : ℕ) (w : World) where
  abbrev wallet : String
  wallet = to_lower_case a

  -- The server after the nonce was issued, and after the login.
  abbrev challenged : Sessions
  challenged = record w.sessions {
    nonces =
        set (prune t1 w.sessions.nonces) wallet
          (record { value = nonce; expires = t1 + ttl.nonce });
  }

  abbrev pub logged_in : Sessions
  logged_in = after_login sdk keccak_256 ttl wallet t2 token challenged

  abbrev pub account_of : Me
  account_of = record {
    wallet = wallet;
    price_per_play_wei = price;
    operators =
        map (my_operator w.engine.db)
          (order_by_id (filter (λ o. has_owner wallet o.owner_wallet) w.engine.db.operators));
  }

  abbrev at : Sessions → Session → Option (JsMap String String) → List Task → World
  at s session storage tasks = record w {
    sessions = s;
    page = record w.page {
      account = some a;
      started = some a;
      session = session;
      storage = storage;
      tasks = tasks;
    };
  }

  abbrev pub signed_in : World
  signed_in =
      at logged_in (record { addr = some a; phase = loaded; error = ""; me = some account_of })
        (write_token wallet token w.page.storage) []

  parsed : is_wallet_text wallet ≡ true → parse_wallet (string wallet) ≡ ok wallet
  unfolding parse_wallet
  parsed h = rw (h, to_lower_case-to_lower_case a)

  auth_nonce-ok :
      is_wallet_text wallet ≡ true
      → auth_nonce sdk keccak_256 ttl (string wallet) t1 nonce w.sessions ≡ (
        ok (record { wallet = wallet; nonce = nonce; message = login_message wallet nonce }),
        challenged,
      )
  unfolding auth_nonce issue_nonce
  auth_nonce-ok h = rw (parsed h)

  auth_login-ok :
      is_wallet_text wallet ≡ true
      → recover_wallet sdk keccak_256 (login_message wallet nonce) signature ≡ some wallet
      → t2 ≤ t1 + ttl.nonce
      → auth_login sdk keccak_256 ttl (login_body wallet signature) t2 token challenged
        ≡ (ok (record { wallet = wallet; token = token; expires_at = t2 + ttl.token }), logged_in)
  auth_login-ok h r l =
      let entry : Entry = record { value = nonce; expires = t1 + ttl.nonce } in
      let there = get-set (prune t1 w.sessions.nonces) wallet wallet entry in
      let may : MayLogIn sdk keccak_256 ttl wallet signature t2 challenged = record {
        entry = entry;
        pending = ground (arith, there, text_iff wallet wallet);
        alive = l;
        signed = r;
      } in
      rw
        (auth_login-parsed sdk keccak_256 ttl (login_body wallet signature) t2 token challenged
          wallet signature (parsed h) refl)
        (rw (login-granted sdk keccak_256 ttl wallet signature t2 token challenged may) refl)

  me-ok :
      t3 ≤ t2 + ttl.token → me price logged_in (some token) t3 w.engine ≡ (ok account_of, w.engine)
  unfolding me wallet_for
  me-ok l =
      let entry : Entry = record { value = wallet; expires = t2 + ttl.token } in
      let there = get-set (prune t2 w.sessions.tokens) token token entry in
      ground (arith, there, text_iff token token)

  abbrev page_run : List Event → World → World
  page_run = dashboard_run sha256 sdk keccak_256 config ttl price

  abbrev waiting : Sessions → Task → World
  waiting s t = at s (session_of a signing "") w.page.storage (t ∷ [])

  started :
      is_account a w.page.started ≡ false
      → token_of a w.page ≡ none
      → w.page.tasks ≡ []
      → page_run (account_changed (some a) ∷ []) w ≡ waiting w.sessions (asked (ask_nonce a))
  unfolding handle sign_in
  started s n t = ground arith

  signed_message :
      is_wallet_text wallet ≡ true
      → page_run
          (served 0 t1 nonce ∷ resumed 0 ∷ signed 0 signature ∷ resumed 0 ∷ [])
          (waiting w.sessions (asked (ask_nonce a)))
        ≡ waiting challenged (asked (ask_login a signature))
  unfolding handle serve resume
  signed_message h = rw (auth_nonce-ok h) refl

  with_token :
      is_wallet_text wallet ≡ true
      → recover_wallet sdk keccak_256 (login_message wallet nonce) signature ≡ some wallet
      → t2 ≤ t1 + ttl.nonce
      → page_run
          (served 0 t2 token ∷ resumed 0 ∷ [])
          (waiting challenged (asked (ask_login a signature)))
        ≡ at logged_in
            (session_of a signing "")
            (write_token wallet token w.page.storage)
            (asked (ask_me fresh a token) ∷ [])
  unfolding handle serve resume
  with_token h r l = rw (auth_login-ok h r l) refl

  with_account :
      t3 ≤ t2 + ttl.token
      → page_run (served 0 t3 "" ∷ resumed 0 ∷ []) (
          at logged_in
            (session_of a signing "")
            (write_token wallet token w.page.storage)
            (asked (ask_me fresh a token) ∷ []))
        ≡ signed_in
  unfolding handle serve resume
  with_account l = rw (me-ok l) refl

  -- A new account whose wallet has no token in the tab signs in: if the page waits for nothing,
  -- the account's lower case is an address, its signature recovers the wallet, the login comes
  -- before the nonce expires and the account is asked for before the token does, then the page
  -- ends with the account of the wallet as the server has it and the token in the tab.
  pub sign_in_lem :
      is_account a w.page.started ≡ false
      → token_of a w.page ≡ none
      → w.page.tasks ≡ []
      → is_wallet_text wallet ≡ true
      → recover_wallet sdk keccak_256 (login_message wallet nonce) signature ≡ some wallet
      → t2 ≤ t1 + ttl.nonce
      → t3 ≤ t2 + ttl.token
      → (dashboard_run sha256 sdk keccak_256 config ttl price
            (sign_in_events a nonce signature token t1 t2 t3)
            w
          ≡ signed_in)
        × (me price logged_in (some token) t3 w.engine ≡ (ok account_of, w.engine))
  sign_in_lem s n t h r l m =
      (rw (started s n t, signed_message h, with_token h r l) (with_account m), me-ok m)
