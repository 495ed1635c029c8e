-- ===== src/Web/Dashboard/Tasks.antt =====
-- The handlers of the dashboard keep what waits owned: an account and a token are of their wallet.
use foreseer.Base.{
  ℕ, zero, suc, String, Option, none, some, List, [], ◌∷◌, get_elem?, string_eq, nat_eq, Bool-cases,
  Option-cases, inl, inr,
}
use foreseer.Base.JsMap.Entries.{All}
use foreseer.Base.Text.{to_lower_case}
use foreseer.Web.Dashboard.{
  Failure, reply, Job, ask_me, ask_nonce, ask_signature, ask_login, ask_service, got_signature,
  Task, asked, answered, Page, is_account, put_at, remove_at, token_of, on_account, retry_as,
  create_as, break_task, sign_task, resume_task, put_task, broken_job,
}
use foreseer.Web.Dashboard.Held.{
  IsOwnedJob, IsOwnedAnswer, IsOwnedTask, PageIsOwned, ask-owned, read_token-owned, sign_in-owned,
  resume-owned,
}

module _ (owner : String → String) where
  pub put_at-All :
      (i : ℕ) (t : Task) (ts : List Task)
      → IsOwnedTask owner t
      → All (IsOwnedTask owner) ts
      → All (IsOwnedTask owner) (put_at i t ts)
  put_at-All i t [] o h = tt
  put_at-All zero t (x ∷ xs) o h = (o, h.1)
  put_at-All (suc i) t (x ∷ xs) o h = (h.0, put_at-All i t xs o h.1)

  pub remove_at-All :
      (i : ℕ) (ts : List Task)
      → All (IsOwnedTask owner) ts
      → All (IsOwnedTask owner) (remove_at i ts)
  remove_at-All i [] h = tt
  remove_at-All zero (x ∷ xs) h = h.1
  remove_at-All (suc i) (x ∷ xs) h = (h.0, remove_at-All i xs h.1)

  abbrev pub IsOwnedAt : Option Task → Type 0
  IsOwnedAt none = Unit {0}
  IsOwnedAt (some t) = IsOwnedTask owner t

  pub get_elem?-All :
      (ts : List Task) (i : ℕ) → All (IsOwnedTask owner) ts → IsOwnedAt (get_elem? ts i)
  get_elem?-All [] i h = tt
  get_elem?-All (x ∷ xs) zero h = h.0
  get_elem?-All (x ∷ xs) (suc i) h = get_elem?-All xs i h.1

  pub put_task-owned :
      (i : ℕ) (t : Task) (p : Page)
      → IsOwnedTask owner t
      → PageIsOwned owner p
      → PageIsOwned owner (put_task i t p)
  put_task-owned i t p o v = record {
    storage = v.storage;
    tasks = put_at-All i t p.tasks o v.tasks;
    session = v.session;
  }

  pub on_account-owned :
      (a : Option String) (p : Page) → PageIsOwned owner p → PageIsOwned owner (on_account a p)
  on_account-owned none p v = record { storage = v.storage; tasks = v.tasks; session = v.session }
  on_account-owned (some a) p v = elim (Bool-cases (is_account a p.started)) [
    | inl q ↦ rw q (record { storage = v.storage; tasks = v.tasks; session = v.session })
    | inr q ↦ rw q (
        sign_in-owned owner a (record p { account = some a; started = some a })
          (record { storage = v.storage; tasks = v.tasks; session = v.session }))
  ]

  pub retry_as-owned :
      (a : Option String) (p : Page) → PageIsOwned owner p → PageIsOwned owner (retry_as a p)
  retry_as-owned none p v = v
  retry_as-owned (some a) p v =
      sign_in-owned owner a (record p { started = some a })
        (record { storage = v.storage; tasks = v.tasks; session = v.session })

  pub create_as-owned :
      (a : Option String) (p : Page) → PageIsOwned owner p → PageIsOwned owner (create_as a p)
  create_as-owned none p v = v
  create_as-owned (some a) p v = elim (Option-cases (token_of a p)) [
    | inl q ↦ rw q v
    | inr (token, q) ↦ rw q (record {
      storage = v.storage;
      tasks =
          ask-owned owner (ask_service a token) p.tasks
            (read_token-owned owner (to_lower_case a) token p.storage v.storage q) v.tasks;
      session = v.session;
    })
  ]

  pub broken_job-owned :
      (job : Job) (f : Failure) → IsOwnedJob owner job → IsOwnedAnswer owner (broken_job job f)
  broken_job-owned (ask_me purpose addr token) f o = tt
  broken_job-owned (ask_nonce addr) f o = tt
  broken_job-owned (ask_signature addr message) f o = tt
  broken_job-owned (ask_login addr signature) f o = tt
  broken_job-owned (ask_service addr token) f o = o

  pub break_task-owned :
      (i : ℕ) (t : Option Task) (f : Failure) (p : Page)
      → IsOwnedAt t
      → PageIsOwned owner p
      → PageIsOwned owner (break_task i t f p)
  break_task-owned i none f p o v = v
  break_task-owned i (some (answered a)) f p o v = v
  break_task-owned i (some (asked job)) f p o v =
      put_task-owned i (answered (broken_job job f)) p (broken_job-owned job f o) v

  pub sign_task-owned :
      (i : ℕ) (t : Option Task) (signature : String) (p : Page)
      → PageIsOwned owner p
      → PageIsOwned owner (sign_task i t signature p)
  sign_task-owned i none g p v = v
  sign_task-owned i (some (answered a)) g p v = v
  sign_task-owned i (some (asked (ask_signature addr m))) g p v =
      put_task-owned i (answered (got_signature addr (reply g))) p tt v
  sign_task-owned i (some (asked (ask_me purpose addr token))) g p v = v
  sign_task-owned i (some (asked (ask_nonce addr))) g p v = v
  sign_task-owned i (some (asked (ask_login addr m))) g p v = v
  sign_task-owned i (some (asked (ask_service addr m))) g p v = v

  pub resume_task-owned :
      (i : ℕ) (t : Option Task) (p : Page)
      → IsOwnedAt t
      → PageIsOwned owner p
      → PageIsOwned owner (resume_task i t p)
  resume_task-owned i none p o v = v
  resume_task-owned i (some (asked job)) p o v = v
  resume_task-owned i (some (answered a)) p o v =
      resume-owned owner a (record p { tasks = remove_at i p.tasks }) o
        (record {
          storage = v.storage;
          tasks = remove_at-All i p.tasks v.tasks;
          session = v.session;
        })
