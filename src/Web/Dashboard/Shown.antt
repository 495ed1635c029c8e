-- ===== src/Web/Dashboard/Shown.antt =====
-- Whose account the dashboard shows.
use foreseer.Base.{
  ℕ, ◌≡◌, refl, ◌∙◌, subst, String, Option, none, some, List, [], ◌∷◌, arith, get_elem?, string_eq,
  nat_eq, ◌==◌, Bool-cases, Option-cases, inl, inr, text_iff,
}
use foreseer.Base.Text.{to_lower_case}
use foreseer.Base.Text.Lower.{to_lower_case-to_lower_case}
use foreseer.Base.Exec.{Result-cases}
use foreseer.Json.{string}
use foreseer.Sdk.{Bytes, Sdk}
use foreseer.Engine.{Config}
use foreseer.Wallet.{Sessions, Ttl}
use foreseer.Api.Auth.{auth_login}
use foreseer.Api.Billing.{Me, me}
use foreseer.Web.Dashboard.{
  Session, Purpose, Job, ask_me, ask_nonce, ask_signature, ask_login, ask_service, Task, asked,
  answered, World, Event, account_changed, retried, created, dismissed, served, broken, signed,
  resumed, called, challenged, logged_in, shown, shown_to, serve, serve_task, login_body, handle,
  dashboard_run, fetched,
}
use foreseer.Api.Auth.Parsed.{auth_login-wallet, parse_wallet-lower}
use foreseer.Web.Dashboard.Owned.{
  SessionsAreOwned, IsIssued, auth_nonce-owned, auth_login-owned, me-wallet,
}
use foreseer.Web.Dashboard.Held.{
  IsTokenOf, IsOwnedMe, IsOwnedLogin, IsOwnedJob, IsAccountOf, PageIsOwned,
}
use foreseer.Web.Dashboard.Tasks.{
  IsOwnedAt, get_elem?-All, put_task-owned, on_account-owned, retry_as-owned, create_as-owned,
  break_task-owned, sign_task-owned, resume_task-owned,
}

module _ (owner : String → String) where
  same_account :
      (a b : String) (o : Option Me) (m : Me)
      → IsAccountOf owner (some b) o
      → b ≡ a
      → o ≡ some m
      → m.wallet ≡ to_lower_case a
  same_account a b none m v e h = absurd (ground arith)
  same_account a b (some n) m v e h = subst (λ x. m.wallet ≡ to_lower_case x) e (ground arith)

  shown_to-account :
      (account : Option String) (s : Session) (m : Me)
      → IsAccountOf owner s.addr s.me
      → (shown_to account s).me ≡ some m
      → (a : String) × (account ≡ some a) × (m.wallet ≡ to_lower_case a)
  shown_to-account none s m v h = absurd (ground arith)
  shown_to-account (some a) s m v h = elim (Option-cases s.addr) [
    | inl q ↦ absurd (ground arith)
    | inr (b, q) ↦ elim (Bool-cases (b == a)) [
      | inl same ↦
          (a, refl, same_account a b s.me m (rw q at v) ((text_iff b a).0 same) (ground arith))
      | inr other ↦ absurd (ground arith)
    ]
  ]

  -- The hypothesis of a run: the server makes a token for one wallet only, the one that `owner` says.
  module _ (sha256 : String → String) (sdk : Sdk) (keccak_256 : Bytes → Bytes) (config : Config)
      (ttl : Ttl) (price : ℕ) where
    abbrev pub TaskIssues : Option Task → ℕ → String → Sessions → Type 0
    TaskIssues (some (asked (ask_login addr signature))) now token s =
        IsIssued owner
          (auth_login sdk keccak_256 ttl (login_body (to_lower_case addr) signature) now token s).0
    TaskIssues _ now token s = Unit {0}

    abbrev pub Issues : Event → World → Type 0
    Issues (served i now random) w = TaskIssues (get_elem? w.page.tasks i) now random w.sessions
    Issues (logged_in body now token) w =
        IsIssued owner (auth_login sdk keccak_256 ttl body now token w.sessions).0
    Issues _ w = Unit {0}

    abbrev pub AllIssue : List Event → World → Type 0
    AllIssue [] w = Unit {0}
    AllIssue (e ∷ es) w =
        Issues e w × AllIssue es (handle sha256 sdk keccak_256 config ttl price e w)

    abbrev pub WorldIsOwned : World → Type 0
    WorldIsOwned w = SessionsAreOwned owner w.sessions × PageIsOwned owner w.page

    fetched_me-owned :
        (purpose : Purpose) (addr token : String) (now : ℕ) (w : World)
        → IsTokenOf owner addr token
        → SessionsAreOwned owner w.sessions
        → IsOwnedMe owner addr (fetched (me price w.sessions (some token) now w.engine).0)
    fetched_me-owned purpose addr token now w o v =
        elim (Result-cases (me price w.sessions (some token) now w.engine).0) [
          | inl (e, r) ↦ rw r tt
          | inr (m, r) ↦ rw r (me-wallet owner price w.sessions token now w.engine m v r ∙ o)
        ]

    fetched_login-owned :
        (addr signature : String) (now : ℕ) (token : String) (s : Sessions)
        → TaskIssues (some (asked (ask_login addr signature))) now token s
        → IsOwnedLogin owner addr (
            fetched
              (auth_login sdk keccak_256 ttl
                (login_body (to_lower_case addr) signature)
                now
                token
                s).0)
    fetched_login-owned addr signature now token s q =
        let body = login_body (to_lower_case addr) signature in
        elim (Result-cases (auth_login sdk keccak_256 ttl body now token s).0) [
          | inl (e, r) ↦ rw r tt
          | inr (a, r) ↦
              let named = auth_login-wallet sdk keccak_256 ttl body now token s a r in
              let lower = parse_wallet-lower (to_lower_case addr) a.wallet named in
              let made : owner a.token ≡ a.wallet = rw r at q in
              rw r (made ∙ lower ∙ to_lower_case-to_lower_case addr)
        ]

    serve-owned :
        (i : ℕ) (job : Job) (now : ℕ) (random : String) (w : World)
        → IsOwnedJob owner job
        → TaskIssues (some (asked job)) now random w.sessions
        → WorldIsOwned w
        → WorldIsOwned (serve sha256 sdk keccak_256 config ttl price i job now random w)
    unfolding serve
    serve-owned i (ask_me purpose addr token) now random w o q v =
        (v.0, put_task-owned owner i _ w.page (fetched_me-owned purpose addr token now w o v.0) v.1)
    serve-owned i (ask_nonce addr) now random w o q v = (
      auth_nonce-owned owner sdk keccak_256 ttl (string (to_lower_case addr)) now random w.sessions
          v.0,
      put_task-owned owner i _ w.page tt v.1,
    )
    serve-owned i (ask_signature addr message) now random w o q v = v
    serve-owned i (ask_login addr signature) now random w o q v = (
      auth_login-owned owner sdk keccak_256 ttl (login_body (to_lower_case addr) signature) now
          random w.sessions q v.0,
      put_task-owned owner i _ w.page (fetched_login-owned addr signature now random w.sessions q)
          v.1,
    )
    serve-owned i (ask_service addr token) now random w o q v =
        (v.0, put_task-owned owner i _ w.page o v.1)

    serve_task-owned :
        (i : ℕ) (t : Option Task) (now : ℕ) (random : String) (w : World)
        → IsOwnedAt owner t
        → TaskIssues t now random w.sessions
        → WorldIsOwned w
        → WorldIsOwned (serve_task sha256 sdk keccak_256 config ttl price i t now random w)
    serve_task-owned i none now random w o q v = v
    serve_task-owned i (some (answered a)) now random w o q v = v
    serve_task-owned i (some (asked job)) now random w o q v = serve-owned i job now random w o q v

    -- Whatever happens, the tokens and the accounts stay with their wallets.
    handle-owned :
        (e : Event) (w : World)
        → Issues e w
        → WorldIsOwned w
        → WorldIsOwned (handle sha256 sdk keccak_256 config ttl price e w)
    unfolding handle
    handle-owned (account_changed a) w q v = (v.0, on_account-owned owner a w.page v.1)
    handle-owned retried w q v = (v.0, retry_as-owned owner w.page.account w.page v.1)
    handle-owned created w q v = (v.0, create_as-owned owner w.page.account w.page v.1)
    handle-owned dismissed w q v =
        (v.0, record { storage = v.1.storage; tasks = v.1.tasks; session = v.1.session })
    handle-owned (served i now random) w q v =
        let at = get_elem? w.page.tasks i in
        serve_task-owned i at now random w (get_elem?-All owner w.page.tasks i v.1.tasks) q v
    handle-owned (broken i f) w q v =
        let at = get_elem? w.page.tasks i in
        (
          v.0,
          break_task-owned owner i at f w.page (get_elem?-All owner w.page.tasks i v.1.tasks) v.1,
        )
    handle-owned (signed i signature) w q v =
        (v.0, sign_task-owned owner i (get_elem? w.page.tasks i) signature w.page v.1)
    handle-owned (resumed i) w q v =
        let at = get_elem? w.page.tasks i in
        (
          v.0,
          resume_task-owned owner i at w.page (get_elem?-All owner w.page.tasks i v.1.tasks) v.1,
        )
    handle-owned (called c) w q v = v
    handle-owned (challenged wallet now nonce) w q v =
        (auth_nonce-owned owner sdk keccak_256 ttl wallet now nonce w.sessions v.0, v.1)
    handle-owned (logged_in body now token) w q v =
        (auth_login-owned owner sdk keccak_256 ttl body now token w.sessions q v.0, v.1)

    dashboard_run-owned :
        (es : List Event) (w : World)
        → AllIssue es w
        → WorldIsOwned w
        → WorldIsOwned (dashboard_run sha256 sdk keccak_256 config ttl price es w)
    dashboard_run-owned [] w q v = v
    dashboard_run-owned (e ∷ es) w q v =
        dashboard_run-owned es (handle sha256 sdk keccak_256 config ttl price e w) q.1
          (handle-owned e w q.0 v)

    -- If the server makes each token for one wallet only, then after any events on a dashboard
    -- that starts with the tokens of their wallets, in front of a server with the same, an account
    -- that is shown is that of the connected wallet.
    pub dashboard_run-Shown :
        (es : List Event) (w : World) (m : Me)
        → WorldIsOwned w
        → AllIssue es w
        → (shown (dashboard_run sha256 sdk keccak_256 config ttl price es w).page).me ≡ some m
        → (a : String) × ((dashboard_run sha256 sdk keccak_256 config ttl price es w).page.account
            ≡ some a)
          × (m.wallet ≡ to_lower_case a)
    dashboard_run-Shown es w m v q h =
        let after = dashboard_run sha256 sdk keccak_256 config ttl price es w in
        let kept = dashboard_run-owned es w q v in
        shown_to-account after.page.account after.page.session m kept.1.session h
