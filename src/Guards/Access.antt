-- ===== src/Guards/Access.antt =====
-- Who the guards let through, and what ReadRateGuard keeps in memory.
use foreseer.Base.{
  ℕ, ◌+◌, ◌≤◌, ◌≡◌, String, true, some, [], arith, nat_eq, string_eq, Option-cases, length, inl,
  inr, ◌↔◌, ◌≢◌,
}
use foreseer.Base.JsMap.{JsMap, get, length-set-le, length-set_known}
use foreseer.Base.Exec.{ok}
use foreseer.Db.{Db, OperatorRow}
use foreseer.Guards.{
  Request, Window, Rate, count_read, read_rate_guard, operator_guard, operator_by_key, client_ip,
  window_at, credentialed,
}

length-count_read-le :
    (limit : ℕ) (ip : String) (window : ℕ) (m : JsMap String Window)
    → length m ≤ 50001
    → length (count_read limit ip window (get m ip) m).1 ≤ 50001
length-count_read-le limit ip window m h =
    let new : Window = record { window = window; count = 1 } in
    elim (Option-cases (get m ip)) [
      | inl e ↦ ground (arith, length-set-le m ip new, length-set-le [] ip new)
      | inr (old, e) ↦
          let bumped : Window = record old { count = old.count + 1 } in
          ground (
            arith,
            length-set-le m ip new,
            length-set-le [] ip new,
            length-set_known m ip old bumped e,
          )
    ]

module _ (sha256 : String → String) where
  -- OperatorGuard passes exactly the requests whose key is the key of an operator who is not
  -- suspended.
  pub operator_guard_iff :
      (db : Db) (req : Request) (row : OperatorRow)
      → (operator_guard sha256 db req ≡ ok row) ↔ (
          (key : String) × (req.api_key ≡ some key)
          × (operator_by_key (sha256 key) db ≡ some row)
          × (row.active ≢ 0))
  unfolding operator_guard
  operator_guard_iff db req row = (
    λ h. elim (Option-cases req.api_key) [
      | inl e ↦ absurd (ground arith)
      | inr (key, e) ↦ (key, e, ground arith, ground arith)
    ],
    λ (key, k, o, a). ground arith,
  )

  -- A caller with the admin key, or the key of an active operator, is never refused nor counted.
  pub read_rate_guard-credentialed :
      (rate : Rate) (admin_key : String) (db : Db) (req : Request) (now_ms : ℕ)
      (m : JsMap String Window)
      → credentialed sha256 admin_key req db ≡ true
      → read_rate_guard sha256 rate admin_key db req now_ms m ≡ (ok true, m)
  unfolding read_rate_guard
  read_rate_guard-credentialed rate admin_key db req now_ms m h = ground arith

  -- The map of addresses stays within 50001 entries.
  pub length-read_rate_guard-le :
      (rate : Rate) (admin_key : String) (db : Db) (req : Request) (now_ms : ℕ)
      (m : JsMap String Window)
      → length m ≤ 50001
      → length (read_rate_guard sha256 rate admin_key db req now_ms m).1 ≤ 50001
  unfolding read_rate_guard
  length-read_rate_guard-le rate admin_key db req now_ms m h = ground (
    arith,
    length-count_read-le rate.limit (client_ip req.forwarded_for req.ip) (window_at rate now_ms) m
        h,
  )
