-- ===== src/Web/Dashboard/Switch.antt =====
-- What a change of the wallet does to the dashboard, while an answer for the old one is on its way.
use foreseer.Base.{
  ℕ, ◌+◌, ◌≤◌, ◌≡◌, ◌≢◌, refl, String, true, false, Option, none, some, [], arith, string_eq,
  text_iff,
}
use foreseer.Base.Text.{to_lower_case}
use foreseer.Sdk.{Bytes, Sdk}
use foreseer.Engine.{Config}
use foreseer.Wallet.{Ttl}
use foreseer.Wallet.Text.{is_wallet_text, login_message, recover_wallet}
use foreseer.Api.Billing.{Me}
use foreseer.Web.Dashboard.{
  empty_session, reply, Purpose, cached, fresh, refreshed, got_me, Page, World, shown, shown_key,
  is_account, on_account, token_of, resume, dashboard_run,
}
use foreseer.Web.Dashboard.SignIn.{sign_in_events, sign_in_lem}

is_account_self : (a : String) (o : Option String) → o ≡ some a → is_account a o ≡ true
is_account_self a none h = absurd (ground arith)
is_account_self a (some b) h = (text_iff b a).1 (ground arith)

not_account : (a b : String) → b ≢ a → is_account a (some b) ≡ false
not_account a b h = ground (arith, text_iff b a)

-- Where a wallet is connected and its sign-in was started, an account that arrives for another
-- wallet leaves the page with nothing to show and no error to retry from, and connecting the
-- wallet once more changes nothing.
pub late_account-hides :
    (purpose : Purpose) (a b : String) (m : Me) (p : Page)
    → p.account ≡ some a
    → p.started ≡ some a
    → b ≢ a
    → (shown (resume (got_me purpose b (reply m)) p) ≡ empty_session)
      × (on_account (some a) (resume (got_me purpose b (reply m)) p)
          ≡ resume (got_me purpose b (reply m)) p)
unfolding resume
late_account-hides cached a b m p c s n =
    rw (c, not_account a b n, is_account_self a p.started s) (refl, refl)
late_account-hides fresh a b m p c s n =
    rw (c, not_account a b n, is_account_self a p.started s) (refl, refl)
late_account-hides refreshed a b m p c s n =
    rw (c, not_account a b n, is_account_self a p.started s) (refl, refl)

-- After a sign-in of a new account that nothing disturbs, with the conditions of a sign-in that
-- succeeds, the page displays the key that was issued before it, whichever wallet it was issued
-- to.
pub sign_in-shown_key :
    (sha256 : String → String) (sdk : Sdk) (keccak_256 : Bytes → Bytes) (config : Config)
    (ttl : Ttl) (price : ℕ) (a nonce signature token : String) (t1 t2 t3 : ℕ) (w : World)
    → is_account a w.page.started ≡ false
    → token_of a w.page ≡ none
    → w.page.tasks ≡ []
    → is_wallet_text (to_lower_case a) ≡ true
    → recover_wallet sdk keccak_256 (login_message (to_lower_case a) nonce) signature
      ≡ some (to_lower_case a)
    → t2 ≤ t1 + ttl.nonce
    → t3 ≤ t2 + ttl.token
    → shown_key (
        (dashboard_run sha256 sdk keccak_256 config ttl price
          (sign_in_events a nonce signature token t1 t2 t3)
          w).page)
      ≡ w.page.issued
sign_in-shown_key sha256 sdk keccak_256 config ttl price a nonce signature token t1 t2 t3 w s n t h
      r l m =
    let same =
      sign_in_lem sha256 sdk keccak_256 config ttl price a nonce signature token t1 t2 t3 w s n t h
        r l m in
    rw same.0 (rw ((text_iff a a).1 refl) refl)
