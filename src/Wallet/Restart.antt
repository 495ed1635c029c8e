-- ===== src/Wallet/Restart.antt =====
-- The sessions of WalletSessions survive restarts, and what others do.
use foreseer.Base.{
  ℕ, ◌+◌, ◌≤◌, ◌≡◌, refl, String, Bool, true, false, some, List, [], ◌∷◌, arith, leb, ◌==◌,
  string_eq, if◌then◌else◌, text_iff, filter, not, ap, ◌∙◌, Option, none, sym, subst, ◌⊎◌, inl, inr,
  Bool-cases, Option-cases,
}
use foreseer.Base.JsMap.{JsMap, get, set, get-set}
use foreseer.Base.Exec.{ok}
use foreseer.Db.{SessionRow}
use foreseer.Sdk.{Bytes, Sdk}
use foreseer.Wallet.Text.{login_message, recover_wallet}
use foreseer.Wallet.Login.{login-granted, login-MayLogIn}
use foreseer.Wallet.{
  Entry, Sessions, Session, Ttl, pending, is_wallet, store_session, wallet_for, load, new_sessions,
  issue_nonce, login,
}

lacks : String → List SessionRow → Bool
lacks token [] = true
lacks token (r ∷ rs) = let rest = lacks token rs in if r.token == token then false else rest

lacks-filter :
    (token : String) (rs : List SessionRow)
    → lacks token (filter (λ r. not (r.token == token)) rs) ≡ true
unfolding lacks
lacks-filter token [] = refl
lacks-filter token (r ∷ rs) = ground (arith, lacks-filter token rs)

get-load :
    (now : ℕ) (token : String) (rs : List SessionRow) (m : JsMap String Entry)
    → lacks token rs ≡ true
    → get (load now rs m) token ≡ get m token
unfolding lacks load
get-load now token [] m h = refl
get-load now token (r ∷ rs) m h =
    let entry : Entry = record { value = r.wallet; expires = r.expires } in
    get-load now token rs (if leb now r.expires then set m r.token entry else m) (ground arith)
    ∙ ground (arith, get-set m r.token token entry)

lacks-filter_any :
    (token : String) (p : SessionRow → Bool) (rs : List SessionRow)
    → lacks token rs ≡ true
    → lacks token (filter p rs) ≡ true
unfolding lacks
lacks-filter_any token p [] h = refl
lacks-filter_any token p (r ∷ rs) h = ground (arith, lacks-filter_any token p rs)

-- The row is in the list, and no other row has its token.
abbrev IsStored : SessionRow → List SessionRow → Type 0
IsStored row [] = ⊥
IsStored row (r ∷ rs) =
    ((r ≡ row) × (lacks row.token rs ≡ true)) ⊎ (((r.token == row.token) ≡ false) × IsStored row rs)

filter-true :
    (p : SessionRow → Bool) (r : SessionRow) (rs : List SessionRow)
    → p r ≡ true
    → filter p (r ∷ rs) ≡ r ∷ filter p rs
filter-true p r rs h = ground arith

filter-false :
    (p : SessionRow → Bool) (r : SessionRow) (rs : List SessionRow)
    → p r ≡ false
    → filter p (r ∷ rs) ≡ filter p rs
filter-false p r rs h = ground arith

filter-IsStored :
    (row : SessionRow) (p : SessionRow → Bool) (rs : List SessionRow)
    → p row ≡ true
    → IsStored row rs
    → IsStored row (filter p rs)
filter-IsStored row p [] k h = h
filter-IsStored row p (r ∷ rs) k (inl (e, l)) =
    subst (IsStored row) (sym (filter-true p r rs (subst (λ x. p x ≡ true) (sym e) k)))
      (inl (e, lacks-filter_any row.token p rs l))
filter-IsStored row p (r ∷ rs) k (inr (d, h)) = elim (Bool-cases (p r)) [
  | inl y ↦
      subst (IsStored row) (sym (filter-true p r rs y)) (inr (d, filter-IsStored row p rs k h))
  | inr n ↦ subst (IsStored row) (sym (filter-false p r rs n)) (filter-IsStored row p rs k h)
]

load-IsStored :
    (t : ℕ) (row : SessionRow) (rs : List SessionRow) (m : JsMap String Entry)
    → IsStored row rs
    → t ≤ row.expires
    → get (load t rs m) row.token ≡ some (record { value = row.wallet; expires = row.expires })
unfolding load
load-IsStored t row [] m h l = absurd h
load-IsStored t row (r ∷ rs) m (inl (e, k)) l =
    let entry : Entry = record { value = row.wallet; expires = row.expires } in
    rw e (
      get-load t row.token rs (if leb t row.expires then set m row.token entry else m) k
      ∙ ground (arith, get-set m row.token row.token entry, text_iff row.token row.token))
load-IsStored t row (r ∷ rs) m (inr (d, h)) l = load-IsStored t row rs _ h l

-- What may happen to the sessions: somebody asks for a nonce or logs in, or the server restarts.
pub data SessionCall : Type 0 where
  asked : (wallet : String) (now : ℕ) (nonce : String) → SessionCall
  signed : (wallet signature : String) (now : ℕ) (token : String) → SessionCall
  restarted : (now : ℕ) → SessionCall

-- Each login comes before the time `expires` is over, and draws another token than `token`.
abbrev pub Spares : String → ℕ → List SessionCall → Type 0
Spares token expires [] = Unit {0}
Spares token expires (signed wallet signature now new ∷ cs) =
    (now ≤ expires) × ((new == token) ≡ false) × Spares token expires cs
Spares token expires (c ∷ cs) = Spares token expires cs

module _ (sdk : Sdk) (keccak_256 : Bytes → Bytes) (ttl : Ttl) where
  abbrev pub session_step : SessionCall → Sessions → Sessions
  session_step (asked wallet now nonce) s = (issue_nonce sdk keccak_256 ttl wallet now nonce s).1
  session_step (signed wallet signature now token) s =
      (login sdk keccak_256 ttl wallet signature now token s).1
  session_step (restarted now) s = new_sessions now s.table

  abbrev pub session_run : List SessionCall → Sessions → Sessions
  session_run [] s = s
  session_run (c ∷ cs) s = session_run cs (session_step c s)

  -- The table has the row.
  abbrev Keeps : SessionRow → Sessions → Type 0
  Keeps row s = (rows : List SessionRow) × (s.table ≡ some rows) × IsStored row rows

  new_sessions-table :
      (now : ℕ) (table : Option (List SessionRow)) → (new_sessions now table).table ≡ table
  unfolding new_sessions
  new_sessions-table now none = refl
  new_sessions-table now (some rows) = refl

  issue_nonce-table :
      (wallet : String) (now : ℕ) (nonce : String) (s : Sessions)
      → (issue_nonce sdk keccak_256 ttl wallet now nonce s).1.table ≡ s.table
  unfolding issue_nonce
  issue_nonce-table wallet now nonce s = refl

  -- A login that fails leaves the table, and one that succeeds stores its row.
  login-table :
      (wallet signature : String) (now : ℕ) (token : String) (s : Sessions)
      → ((login sdk keccak_256 ttl wallet signature now token s).1.table ≡ s.table)
        ⊎ ((login sdk keccak_256 ttl wallet signature now token s).1.table
            ≡ store_session now
                (record { token = token; wallet = wallet; expires = now + ttl.token })
                s.table)
  unfolding login
  login-table wallet signature now token s =
      elim (Option-cases (pending now (get s.nonces wallet))) [
        | inl q ↦ inl (ground arith)
        | inr (entry, q) ↦
            elim (Bool-cases (
              is_wallet wallet
                (recover_wallet sdk keccak_256 (login_message wallet entry.value) signature))) [
                  | inl good ↦ inr (ground arith)
                  | inr bad ↦ inl (ground arith)
                ]
      ]

  store_session-IsStored :
      (now : ℕ) (new row : SessionRow) (rows : List SessionRow)
      → now ≤ row.expires
      → (new.token == row.token) ≡ false
      → IsStored row rows
      → IsStored row
          (new ∷ filter (λ r. not (r.token == new.token)) (filter (λ r. leb now r.expires) rows))
  store_session-IsStored now new row rows l d h = inr (
    d,
    filter-IsStored row (λ r. not (r.token == new.token)) (filter (λ r. leb now r.expires) rows)
        (ground (
          arith,
          text_iff row.token new.token,
          text_iff new.token row.token,
          text_iff row.token row.token,
        ))
        (filter-IsStored row (λ r. leb now r.expires) rows (ground arith) h),
  )

  step-Keeps :
      (c : SessionCall) (cs : List SessionCall) (row : SessionRow) (s : Sessions)
      → Spares row.token row.expires (c ∷ cs)
      → Keeps row s
      → Keeps row (session_step c s)
  step-Keeps (asked wallet now nonce) cs row s h (rows, q, k) =
      (rows, issue_nonce-table wallet now nonce s ∙ q, k)
  step-Keeps (restarted now) cs row s h (rows, q, k) = (rows, new_sessions-table now s.table ∙ q, k)
  step-Keeps (signed wallet signature now token) cs row s (l, d, rest) (rows, q, k) =
      elim (login-table wallet signature now token s) [
        | inl same ↦ (rows, same ∙ q, k)
        | inr more ↦
            let new : SessionRow = record {
              token = token;
              wallet = wallet;
              expires = now + ttl.token;
            } in
            (_, more ∙ ap (store_session now new) q, store_session-IsStored now new row rows l d k)
      ]

  rest-Spares :
      (c : SessionCall) (cs : List SessionCall) (token : String) (expires : ℕ)
      → Spares token expires (c ∷ cs)
      → Spares token expires cs
  rest-Spares (asked wallet now nonce) cs token expires h = h
  rest-Spares (restarted now) cs token expires h = h
  rest-Spares (signed wallet signature now new) cs token expires (l, d, h) = h

  run-Keeps :
      (cs : List SessionCall) (row : SessionRow) (s : Sessions)
      → Spares row.token row.expires cs
      → Keeps row s
      → Keeps row (session_run cs s)
  run-Keeps [] row s h k = k
  run-Keeps (c ∷ cs) row s h k =
      run-Keeps cs row (session_step c s) (rest-Spares c cs row.token row.expires h)
        (step-Keeps c cs row s h k)

  wallet_for-Keeps :
      (t u : ℕ) (row : SessionRow) (s : Sessions)
      → Keeps row s
      → t ≤ row.expires
      → u ≤ row.expires
      → wallet_for u row.token (new_sessions t s.table) ≡ some row.wallet
  unfolding wallet_for new_sessions
  wallet_for-Keeps t u row s (rows, q, k) p l =
      rw q (ground (arith, load-IsStored t row rows [] k p))

  -- With a database, a session that a login made is there after a restart, until it expires:
  -- whatever nonces, logins and restarts came between, if no login drew the same token and none
  -- came after the session expired.
  pub wallet_for-restart :
      (wallet signature : String) (now t u : ℕ) (token : String) (s s' : Sessions) (r : Session)
      (rows : List SessionRow) (cs : List SessionCall)
      → s.table ≡ some rows
      → login sdk keccak_256 ttl wallet signature now token s ≡ (ok r, s')
      → Spares r.token r.expires_at cs
      → t ≤ r.expires_at
      → u ≤ r.expires_at
      → wallet_for u r.token (new_sessions t (session_run cs s').table) ≡ some wallet
  wallet_for-restart wallet signature now t u token s s' r rows cs d h k p q =
      let m = login-MayLogIn sdk keccak_256 ttl wallet signature now token s s' r h in
      let g = login-granted sdk keccak_256 ttl wallet signature now token s m in
      let row : SessionRow = record { token = token; wallet = wallet; expires = now + ttl.token } in
      let live = filter (λ x. leb now x.expires) rows in
      let answer : r ≡ record { token = token; expires_at = now + ttl.token } = ground arith in
      let stored : s'.table ≡ store_session now row (some rows) = ground arith in
      let keeps : Keeps row s' = (_, stored, inl (refl, lacks-filter token live)) in
      let spares = subst (λ (x : Session). Spares x.token x.expires_at cs) answer k in
      let time = subst (λ (x : Session). t ≤ x.expires_at) answer p in
      let time' = subst (λ (x : Session). u ≤ x.expires_at) answer q in
      subst
        (λ (x : Session).
          wallet_for u x.token (new_sessions t (session_run cs s').table) ≡ some wallet)
        (sym answer)
        (wallet_for-Keeps t u row (session_run cs s') (run-Keeps cs row s' spares keeps) time time')
