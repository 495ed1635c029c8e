-- ===== src/Web/Dashboard/Held.antt =====
-- The tokens and the account that the dashboard holds are of the wallets that they stand for, whatever
-- its functions do.
use foreseer.Base.{
  ◌≡◌, String, Option, none, some, List, [], ◌∷◌, ◌++◌, arith, string_eq, nat_eq, ◌==◌, Bool-cases,
  Option-cases, inl, inr,
}
use foreseer.Base.JsMap.{JsMap}
use foreseer.Base.JsMap.Entries.{All, Entries, All-append, Entries-get, Entries-set, Entries-delete}
use foreseer.Base.Text.{to_lower_case}
use foreseer.Api.Auth.{LoggedIn}
use foreseer.Api.Billing.{Me}
use foreseer.Web.Dashboard.{
  untied, failed, Session, Failure, refused, exception, Fetched, reply, failure, cached, fresh,
  refreshed, Job, ask_me, ask_nonce, ask_signature, ask_login, ask_service, Answer, got_me,
  got_nonce, got_signature, got_login, got_service, Task, asked, answered, Page, sign_in, resume,
  truthy, read_token, write_token, drop_token, token_of, show, session_of, settle_failure,
  settle_cached, refresh_failed, is_status, message_of,
}
use foreseer.Api.Filter.{error_response}

module _ (owner : String → String) where
  abbrev pub IsTokenOf : String → String → Type 0
  IsTokenOf addr token = owner token ≡ to_lower_case addr

  abbrev pub IsOwnedMe : String → Fetched Me → Type 0
  IsOwnedMe addr (reply m) = m.wallet ≡ to_lower_case addr
  IsOwnedMe addr (failure f) = Unit {0}

  abbrev pub IsOwnedLogin : String → Fetched LoggedIn → Type 0
  IsOwnedLogin addr (reply r) = IsTokenOf addr r.token
  IsOwnedLogin addr (failure f) = Unit {0}

  abbrev pub IsOwnedJob : Job → Type 0
  IsOwnedJob (ask_me purpose addr token) = IsTokenOf addr token
  IsOwnedJob (ask_nonce addr) = Unit {0}
  IsOwnedJob (ask_signature addr message) = Unit {0}
  IsOwnedJob (ask_login addr signature) = Unit {0}
  IsOwnedJob (ask_service addr token) = IsTokenOf addr token

  abbrev pub IsOwnedAnswer : Answer → Type 0
  IsOwnedAnswer (got_me purpose addr m) = IsOwnedMe addr m
  IsOwnedAnswer (got_nonce addr c) = Unit {0}
  IsOwnedAnswer (got_signature addr s) = Unit {0}
  IsOwnedAnswer (got_login addr r) = IsOwnedLogin addr r
  IsOwnedAnswer (got_service addr token c) = IsTokenOf addr token

  abbrev pub IsOwnedTask : Task → Type 0
  IsOwnedTask (asked job) = IsOwnedJob job
  IsOwnedTask (answered a) = IsOwnedAnswer a

  abbrev pub StorageIsOwned : Option (JsMap String String) → Type 0
  StorageIsOwned none = Unit {0}
  StorageIsOwned (some m) = Entries (λ wallet token. owner token ≡ wallet) m

  abbrev pub IsAccountOf : Option String → Option Me → Type 0
  IsAccountOf addr none = Unit {0}
  IsAccountOf none (some m) = ⊥
  IsAccountOf (some a) (some m) = m.wallet ≡ to_lower_case a

  -- Every token and every account on the page are of the wallet that they stand for.
  pub record PageIsOwned (p : Page) : Type 0 where
    pub storage : StorageIsOwned p.storage
    pub tasks : All IsOwnedTask p.tasks
    pub session : IsAccountOf p.session.addr p.session.me

  pub read_token-owned :
      (wallet token : String) (m : Option (JsMap String String))
      → StorageIsOwned m
      → truthy (read_token wallet m) ≡ some token
      → owner token ≡ wallet
  read_token-owned wallet token none h q = absurd (ground arith)
  read_token-owned wallet token (some m) h q =
      Entries-get (λ w t. owner t ≡ w) m wallet token h (ground arith)

  write_token-owned :
      (wallet token : String) (m : Option (JsMap String String))
      → StorageIsOwned m
      → owner token ≡ wallet
      → StorageIsOwned (write_token wallet token m)
  write_token-owned wallet token none h q = tt
  write_token-owned wallet token (some m) h q = Entries-set (λ w t. owner t ≡ w) m wallet token h q

  drop_token-owned :
      (wallet : String) (m : Option (JsMap String String))
      → StorageIsOwned m
      → StorageIsOwned (drop_token wallet m)
  drop_token-owned wallet none h = tt
  drop_token-owned wallet (some m) h = Entries-delete (λ w t. owner t ≡ w) m wallet h

  pub ask-owned :
      (job : Job) (ts : List Task)
      → IsOwnedJob job
      → All IsOwnedTask ts
      → All IsOwnedTask (ts ++ asked job ∷ [])
  ask-owned job ts j h = All-append IsOwnedTask ts (asked job ∷ []) h (j, tt)

  pub sign_in-owned : (addr : String) (p : Page) → PageIsOwned p → PageIsOwned (sign_in addr p)
  unfolding sign_in
  sign_in-owned addr p v = elim (Option-cases (token_of addr p)) [
    | inl q ↦ rw q (record {
      storage = v.storage;
      tasks = ask-owned (ask_nonce addr) p.tasks tt v.tasks;
      session = tt;
    })
    | inr (token, q) ↦ rw q (record {
      storage = v.storage;
      tasks =
          ask-owned (ask_me cached addr token) p.tasks
            (read_token-owned (to_lower_case addr) token p.storage v.storage q) v.tasks;
      session = tt;
    })
  ]

  show-owned :
      (s : Session) (p : Page) → IsAccountOf s.addr s.me → PageIsOwned p → PageIsOwned (show s p)
  show-owned s p a v = record { storage = v.storage; tasks = v.tasks; session = a }

  settle_failure-owned :
      (addr : String) (f : Failure) (p : Page)
      → PageIsOwned p
      → PageIsOwned (settle_failure addr f p)
  settle_failure-owned addr (exception message) p v =
      show-owned (session_of addr failed message) p tt v
  settle_failure-owned addr (refused e) p v = elim (Bool-cases ((error_response e).status == 404)) [
    | inl q ↦ rw q (show-owned (session_of addr untied "") p tt v)
    | inr q ↦ rw q (show-owned (session_of addr failed (error_response e).error) p tt v)
  ]

  settle_cached-owned :
      (addr : String) (f : Failure) (p : Page)
      → PageIsOwned p
      → PageIsOwned (settle_cached addr (failure f) p)
  settle_cached-owned addr f p v = elim (Bool-cases (is_status 401 f)) [
    | inl q ↦ rw q (record {
      storage = drop_token-owned (to_lower_case addr) p.storage v.storage;
      tasks = ask-owned (ask_nonce addr) p.tasks tt v.tasks;
      session = v.session;
    })
    | inr q ↦ rw q (settle_failure-owned addr f p v)
  ]

  refresh_failed-owned : (f : Failure) (p : Page) → PageIsOwned p → PageIsOwned (refresh_failed f p)
  refresh_failed-owned (refused e) p v = record {
    storage = v.storage;
    tasks = v.tasks;
    session = v.session;
  }
  refresh_failed-owned (exception message) p v = record {
    storage = v.storage;
    tasks = v.tasks;
    session = v.session;
  }

  pub resume-owned :
      (a : Answer) (p : Page) → IsOwnedAnswer a → PageIsOwned p → PageIsOwned (resume a p)
  unfolding resume
  resume-owned (got_me cached addr (reply m)) p o v = record {
    storage = v.storage;
    tasks = v.tasks;
    session = o;
  }
  resume-owned (got_me cached addr (failure f)) p o v = settle_cached-owned addr f p v
  resume-owned (got_me fresh addr (reply m)) p o v = record {
    storage = v.storage;
    tasks = v.tasks;
    session = o;
  }
  resume-owned (got_me fresh addr (failure f)) p o v = settle_failure-owned addr f p v
  resume-owned (got_me refreshed addr (reply m)) p o v = record {
    storage = v.storage;
    tasks = v.tasks;
    session = o;
  }
  resume-owned (got_me refreshed addr (failure f)) p o v = refresh_failed-owned f p v
  resume-owned (got_nonce addr (reply c)) p o v = record {
    storage = v.storage;
    tasks = ask-owned (ask_signature addr c.message) p.tasks tt v.tasks;
    session = v.session;
  }
  resume-owned (got_nonce addr (failure f)) p o v =
      show-owned (session_of addr failed (message_of f)) p tt v
  resume-owned (got_signature addr (reply s)) p o v = record {
    storage = v.storage;
    tasks = ask-owned (ask_login addr s) p.tasks tt v.tasks;
    session = v.session;
  }
  resume-owned (got_signature addr (failure f)) p o v =
      show-owned (session_of addr failed (message_of f)) p tt v
  resume-owned (got_login addr (reply r)) p o v = record {
    storage = write_token-owned (to_lower_case addr) r.token p.storage v.storage o;
    tasks = ask-owned (ask_me fresh addr r.token) p.tasks o v.tasks;
    session = v.session;
  }
  resume-owned (got_login addr (failure f)) p o v =
      show-owned (session_of addr failed (message_of f)) p tt v
  resume-owned (got_service addr token (reply c)) p o v = record {
    storage = v.storage;
    tasks = ask-owned (ask_me refreshed addr token) p.tasks o v.tasks;
    session = v.session;
  }
  resume-owned (got_service addr token (failure f)) p o v = record {
    storage = v.storage;
    tasks = v.tasks;
    session = v.session;
  }
