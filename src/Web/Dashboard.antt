-- ===== src/Web/Dashboard.antt =====
-- web/app/dashboard/page.tsx: the operator dashboard in front of the server. The server handles a
-- request of the page, and the page reads the answer, in two steps, so that anything may come between.
mod State
pub mod Owned
pub mod Held
pub mod Tasks
pub mod Shown
pub mod SignIn
pub mod Switch
pub mod Amount
unfoldable pub use State.*
use foreseer.Base.{ℕ, zero, suc, String, Option, none, some, List, [], ◌∷◌, get_elem?}
use foreseer.Base.Text.{to_lower_case}
use foreseer.Base.Exec.{Result, ok, err}
use foreseer.Json.{Value, string, object, field, end}
use foreseer.Sdk.{Bytes, Sdk}
use foreseer.Engine.{Engine, Config}
use foreseer.Wallet.{Sessions, Ttl}
use foreseer.Api.Auth.{auth_nonce, auth_login}
use foreseer.Api.Billing.{me}
use foreseer.Api.Operators.{create_for_wallet}
use foreseer.Api.Run.{Call, step}

pub record World : Type 0 where
  pub engine : Engine
  pub sessions : Sessions
  pub page : Page

-- What may happen next: the browser, a wallet or the server does something for the page, the task at
-- a place in the list goes on, or the server does something for somebody else.
pub data Event : Type 0 where
  account_changed : Option String → Event
  retried created dismissed : Event
  served : (i now : ℕ) (random : String) → Event
  broken : (i : ℕ) → Failure → Event
  signed : (i : ℕ) (signature : String) → Event
  resumed : (i : ℕ) → Event
  called : Call → Event
  challenged : (wallet : Value) (now : ℕ) (nonce : String) → Event
  logged_in : (body : Value) (now : ℕ) (token : String) → Event

-- The list with another task at a place, or with none there.
abbrev pub put_at : ℕ → Task → List Task → List Task
put_at i t [] = []
put_at zero t (x ∷ xs) = t ∷ xs
put_at (suc i) t (x ∷ xs) = x ∷ put_at i t xs

abbrev pub remove_at : ℕ → List Task → List Task
remove_at i [] = []
remove_at zero (x ∷ xs) = xs
remove_at (suc i) (x ∷ xs) = x ∷ remove_at i xs

abbrev pub put_task : ℕ → Task → Page → Page
put_task i t p = record p { tasks = put_at i t p.tasks }

abbrev pub fetched : {A : Type 0} → Result A → Fetched A
fetched (ok a) = reply a
fetched (err e) = failure (refused e)

abbrev pub broken_job : Job → Failure → Answer
broken_job (ask_me purpose addr token) f = got_me purpose addr (failure f)
broken_job (ask_nonce addr) f = got_nonce addr (failure f)
broken_job (ask_signature addr message) f = got_signature addr (failure f)
broken_job (ask_login addr signature) f = got_login addr (failure f)
broken_job (ask_service addr token) f = got_service addr token (failure f)

abbrev pub break_task : ℕ → Option Task → Failure → Page → Page
break_task i (some (asked job)) f p = put_task i (answered (broken_job job f)) p
break_task i _ f p = p

abbrev pub sign_task : ℕ → Option Task → String → Page → Page
sign_task i (some (asked (ask_signature addr message))) signature p =
    put_task i (answered (got_signature addr (reply signature))) p
sign_task i _ signature p = p

abbrev pub resume_task : ℕ → Option Task → Page → Page
resume_task i (some (answered a)) p = resume a (record p { tasks = remove_at i p.tasks })
resume_task i _ p = p

abbrev pub login_body : String → String → Value
login_body wallet signature =
    object (field "wallet" (string wallet) (field "signature" (string signature) end))

module _ (sha256 : String → String) (sdk : Sdk) (keccak_256 : Bytes → Bytes) (config : Config)
    (ttl : Ttl) (price : ℕ) where
  -- The server handles a request; `random` is the nonce, the token or the key that it makes.
  unfoldable pub serve : ℕ → Job → ℕ → String → World → World
  serve i (ask_me purpose addr token) now random w =
      let (r, s) = me price w.sessions (some token) now w.engine in
      record w { engine = s; page = put_task i (answered (got_me purpose addr (fetched r))) w.page }
  serve i (ask_nonce addr) now random w =
      let (r, s) =
        auth_nonce sdk keccak_256 ttl (string (to_lower_case addr)) now random w.sessions in
      record w { sessions = s; page = put_task i (answered (got_nonce addr (fetched r))) w.page }
  serve i (ask_signature addr message) now random w = w
  serve i (ask_login addr signature) now random w =
      let (r, s) =
        auth_login sdk keccak_256 ttl (login_body (to_lower_case addr) signature) now random
          w.sessions in
      record w { sessions = s; page = put_task i (answered (got_login addr (fetched r))) w.page }
  serve i (ask_service addr token) now random w =
      let (r, s) =
        create_for_wallet sha256 w.sessions (some token) (object end) now random w.engine in
      record w {
        engine = s;
        page = put_task i (answered (got_service addr token (fetched r))) w.page;
      }

  abbrev pub serve_task : ℕ → Option Task → ℕ → String → World → World
  serve_task i (some (asked job)) now random w = serve i job now random w
  serve_task i _ now random w = w

  unfoldable pub handle : Event → World → World
  handle (account_changed account) w = record w { page = on_account account w.page }
  handle retried w = record w { page = retry_as w.page.account w.page }
  handle created w = record w { page = create_as w.page.account w.page }
  handle dismissed w = record w { page = record w.page { issued = none } }
  handle (served i now random) w = serve_task i (get_elem? w.page.tasks i) now random w
  handle (broken i f) w = record w { page = break_task i (get_elem? w.page.tasks i) f w.page }
  handle (signed i signature) w = record w {
    page = sign_task i (get_elem? w.page.tasks i) signature w.page;
  }
  handle (resumed i) w = record w { page = resume_task i (get_elem? w.page.tasks i) w.page }
  handle (called c) w = record w { engine = step sha256 sdk config price c w.engine }
  handle (challenged wallet now nonce) w = record w {
    sessions = (auth_nonce sdk keccak_256 ttl wallet now nonce w.sessions).1;
  }
  handle (logged_in body now token) w = record w {
    sessions = (auth_login sdk keccak_256 ttl body now token w.sessions).1;
  }

  abbrev pub dashboard_run : List Event → World → World
  dashboard_run [] w = w
  dashboard_run (e ∷ es) w = dashboard_run es (handle e w)
