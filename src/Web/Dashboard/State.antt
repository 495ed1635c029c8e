-- ===== src/Web/Dashboard/State.antt =====
-- web/app/dashboard/page.tsx: the state of the component Dashboard, and what its functions do between
-- two awaits. A function that waits leaves a task.
use foreseer.Base.{
  ℕ, String, Bool, true, false, Option, none, some, List, [], ◌∷◌, ◌++◌, ◌==◌, nat_eq, string_eq,
  if◌then◌else◌,
}
use foreseer.Base.JsMap.{JsMap, get, set, delete}
use foreseer.Base.Text.{to_lower_case}
use foreseer.Base.Exec.{Error}
use foreseer.Api.Filter.{error_response}
use foreseer.Api.Billing.{Me}
use foreseer.Api.Operators.{Created}
use foreseer.Api.Auth.{Challenge, LoggedIn}

pub data Phase : Type 0 where
  idle signing loaded untied failed : Phase

pub record Session : Type 0 where
  pub addr : Option String
  pub phase : Phase
  pub error : String
  pub me : Option Me

abbrev pub empty_session : Session
empty_session = record { addr = none; phase = idle; error = ""; me = none }

-- `{ ...EMPTY, addr, phase, error }`.
abbrev pub session_of : String → Phase → String → Session
session_of addr phase error = record { addr = some addr; phase = phase; error = error; me = none }

pub record Issued : Type 0 where
  pub name : String
  pub api_key : String

-- A request that failed: the server's error, or an exception of `fetch` or of the wallet.
pub data Failure : Type 0 where
  refused : Error → Failure
  exception : String → Failure

pub data Fetched (A : Type 0) : Type 0 where
  reply : A → Fetched A
  failure : Failure → Fetched A

-- The three places that ask for /billing/me: with the token of the tab, after a login, and after a
-- new service.
pub data Purpose : Type 0 where
  cached fresh refreshed : Purpose

-- What is awaited, with the variables of the function that waits.
pub data Job : Type 0 where
  ask_me : Purpose → (addr token : String) → Job
  ask_nonce : (addr : String) → Job
  ask_signature : (addr message : String) → Job
  ask_login : (addr signature : String) → Job
  ask_service : (addr token : String) → Job

pub data Answer : Type 0 where
  got_me : Purpose → (addr : String) → Fetched Me → Answer
  got_nonce : (addr : String) → Fetched Challenge → Answer
  got_signature : (addr : String) → Fetched String → Answer
  got_login : (addr : String) → Fetched LoggedIn → Answer
  got_service : (addr token : String) → Fetched Created → Answer

pub data Task : Type 0 where
  asked : Job → Task
  answered : Answer → Task

-- `storage` is the tab's tokens by wallet, and `none` where sessionStorage throws.
pub record Page : Type 0 where
  pub account : Option String
  pub session : Session
  pub issued : Option Issued
  pub creating : Bool
  pub started : Option String
  pub storage : Option (JsMap String String)
  pub tasks : List Task

abbrev pub new_page : Option (JsMap String String) → Page
new_page storage = record {
  account = none;
  session = empty_session;
  issued = none;
  creating = false;
  started = none;
  storage = storage;
  tasks = [];
}

abbrev pub read_token : String → Option (JsMap String String) → Option String
read_token wallet none = none
read_token wallet (some m) = get m wallet

abbrev pub write_token :
    String → String → Option (JsMap String String) → Option (JsMap String String)
write_token wallet token none = none
write_token wallet token (some m) = some (set m wallet token)

abbrev pub drop_token : String → Option (JsMap String String) → Option (JsMap String String)
drop_token wallet none = none
drop_token wallet (some m) = some (delete m wallet)

-- A token as a condition: an empty text is none.
abbrev pub truthy : Option String → Option String
truthy none = none
truthy (some s) = if s == "" then none else some s

abbrev pub token_of : String → Page → Option String
token_of addr p = truthy (read_token (to_lower_case addr) p.storage)

abbrev pub is_account : String → Option String → Bool
is_account addr none = false
is_account addr (some a) = a == addr

-- `session.addr === account ? session : EMPTY`.
abbrev pub shown_to : Option String → Session → Session
shown_to none s = empty_session
shown_to (some a) s = if is_account a s.addr then s else empty_session

abbrev pub shown : Page → Session
shown p = shown_to p.account p.session

-- The page starts to wait.
abbrev pub ask : Job → Page → Page
ask job p = record p { tasks = p.tasks ++ asked job ∷ [] }

abbrev pub show : Session → Page → Page
show s p = record p { session = s }

-- `err.message` of an error that `signIn` throws for an answer, or that reached it.
abbrev pub message_of : Failure → String
message_of (refused e) = (error_response e).error
message_of (exception message) = message

-- `settle`, and the `catch` around it.
abbrev pub settle_failure : String → Failure → Page → Page
settle_failure addr (refused e) p =
    if (error_response e).status == 404
    then show (session_of addr untied "") p
    else show (session_of addr failed (error_response e).error) p
settle_failure addr (exception message) p = show (session_of addr failed message) p

abbrev pub settle : String → Fetched Me → Page → Page
settle addr (reply me) p =
    show (record { addr = some addr; phase = loaded; error = ""; me = some me }) p
settle addr (failure f) p = settle_failure addr f p

abbrev pub is_status : ℕ → Failure → Bool
is_status n (refused e) = (error_response e).status == n
is_status n (exception message) = false

-- The hit of a cached token: an answer 401 drops it and asks to sign.
abbrev pub settle_cached : String → Fetched Me → Page → Page
settle_cached addr (reply me) p = settle addr (reply me) p
settle_cached addr (failure f) p =
    if is_status 401 f
    then ask (ask_nonce addr) (record p { storage = drop_token (to_lower_case addr) p.storage })
    else settle_failure addr f p

-- `signIn` to its first await.
abbrev pub sign_in_with : Option String → String → Page → Page
sign_in_with none addr p = ask (ask_nonce addr) p
sign_in_with (some token) addr p = ask (ask_me cached addr token) p

unfoldable pub sign_in : String → Page → Page
sign_in addr p = sign_in_with (token_of addr p) addr (show (session_of addr signing "") p)

-- The effect on `account`.
abbrev pub on_account : Option String → Page → Page
on_account none p = record p { account = none; started = none }
on_account (some a) p =
    let q : Page = record p { account = some a } in
    if is_account a p.started then q else sign_in a (record q { started = some a })

abbrev pub retry_as : Option String → Page → Page
retry_as none p = p
retry_as (some a) p = sign_in a (record p { started = some a })

-- `createService` to its first await.
abbrev pub create_with : Option String → String → Page → Page
create_with none addr p = p
create_with (some token) addr p = ask (ask_service addr token) (record p { creating = true })

abbrev pub create_as : Option String → Page → Page
create_as none p = p
create_as (some a) p = create_with (token_of a p) a p

-- The `catch` and the `finally` of createService.
abbrev pub create_failed : Failure → Page → Page
create_failed f p = record p {
  session = record p.session { error = message_of f };
  creating = false;
}

-- The end of createService: an answer that is no success is let go.
abbrev pub refresh_failed : Failure → Page → Page
refresh_failed (refused e) p = record p { creating = false }
refresh_failed (exception message) p = create_failed (exception message) p

abbrev pub refresh : String → Fetched Me → Page → Page
refresh addr (reply me) p = settle addr (reply me) (record p { creating = false })
refresh addr (failure f) p = refresh_failed f p

abbrev pub show_failure : String → Failure → Page → Page
show_failure addr f p = show (session_of addr failed (message_of f)) p

-- The function that waited for this answer goes on to its next await or its end.
unfoldable pub resume : Answer → Page → Page
resume (got_me cached addr m) p = settle_cached addr m p
resume (got_me fresh addr m) p = settle addr m p
resume (got_me refreshed addr m) p = refresh addr m p
resume (got_nonce addr (reply c)) p = ask (ask_signature addr c.message) p
resume (got_nonce addr (failure f)) p = show_failure addr f p
resume (got_signature addr (reply signature)) p = ask (ask_login addr signature) p
resume (got_signature addr (failure f)) p = show_failure addr f p
resume (got_login addr (reply auth)) p =
    ask (ask_me fresh addr auth.token)
      (record p { storage = write_token (to_lower_case addr) auth.token p.storage })
resume (got_login addr (failure f)) p = show_failure addr f p
resume (got_service addr token (reply c)) p =
    ask (ask_me refreshed addr token)
      (record p { issued = some (record { name = c.name; api_key = c.api_key }) })
resume (got_service addr token (failure f)) p = create_failed f p

-- `phase === "loaded" && me`.
abbrev pub has_account : Phase → Option Me → Bool
has_account loaded (some m) = true
has_account _ _ = false

-- The key that is displayed.
abbrev pub shown_key : Page → Option Issued
shown_key p = if has_account (shown p).phase (shown p).me then p.issued else none
