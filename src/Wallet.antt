-- ===== src/Wallet.antt =====
-- server/src/wallet.ts: wallet addresses, the login message and its digest, and the class
-- WalletSessions. The clock, the random texts and keccak_256 (a package) are arguments; the table
-- `sessions` is written by this class alone, and `none` stands for a class made without a database.
pub mod Text
pub mod Prune
pub mod Login
pub mod Bounded
pub mod Restart
use foreseer.Base.{
  ℕ, zero, suc, ◌+◌, String, Bool, true, false, Option, none, some, List, [], ◌∷◌, ltb, leb, ◌==◌,
  string_eq, if◌then◌else◌, filter, length, not,
}
use foreseer.Base.JsMap.{JsMap, get, set, delete, delete_first}
use foreseer.Base.Exec.{api, Exec, pure, gets, modify, guard, or_raise, ◌>>=◌, ◌>>◌}
use foreseer.Db.{SessionRow}
use foreseer.Sdk.{Bytes, Sdk}
use Text.{login_message, recover_wallet}

pub record Entry : Type 0 where
  pub value : String
  pub expires : ℕ

pub record Sessions : Type 0 where
  pub nonces : JsMap String Entry
  pub tokens : JsMap String Entry
  pub table : Option (List SessionRow)

pub record Issued : Type 0 where
  pub nonce : String
  pub message : String

pub record Session : Type 0 where
  pub token : String
  pub expires_at : ℕ

-- `nonceTtl` and `tokenTtl` of the constructor.
pub record Ttl : Type 0 where
  pub nonce : ℕ
  pub token : ℕ

abbrev pub map_cap : ℕ
map_cap = 10000

-- The first loop of `prune`.
unfoldable pub drop_expired : ℕ → JsMap String Entry → JsMap String Entry
drop_expired now [] = []
drop_expired now ((key, entry) ∷ m) =
    let rest = drop_expired now m in if ltb entry.expires now then rest else (key, entry) ∷ rest

-- The second loop, with one round for each entry at most.
unfoldable pub evict : ℕ → ℕ → JsMap String Entry → JsMap String Entry
evict cap zero m = m
evict cap (suc rounds) m =
    let rest = evict cap rounds (delete_first m) in if leb cap (length m) then rest else m

unfoldable pub prune : ℕ → JsMap String Entry → JsMap String Entry
unfolding drop_expired evict
prune now m = let live = drop_expired now m in evict map_cap (length live) live

-- The stored sessions that a new WalletSessions takes over.
unfoldable pub load : ℕ → List SessionRow → JsMap String Entry → JsMap String Entry
load now [] m = m
load now (row ∷ rows) m = load now rows (
    if leb now row.expires
    then set m row.token (record { value = row.wallet; expires = row.expires })
    else m)

unfoldable pub new_sessions : ℕ → Option (List SessionRow) → Sessions
unfolding load
new_sessions now none = record { nonces = []; tokens = []; table = none }
new_sessions now (some rows) = record { nonces = []; tokens = load now rows []; table = some rows }

-- DELETE FROM sessions WHERE expires < ?; INSERT OR REPLACE INTO sessions.
abbrev pub store_session : ℕ → SessionRow → Option (List SessionRow) → Option (List SessionRow)
store_session now row none = none
store_session now row (some rows) =
    some (row ∷ filter (λ r. not (r.token == row.token)) (filter (λ r. leb now r.expires) rows))

unfoldable pub wallet_for : ℕ → String → Sessions → Option String
wallet_for now token s = elim (get s.tokens token) [
  | none ↦ none
  | some entry ↦ if ltb entry.expires now then none else some entry.value
]

-- `entry === undefined || entry.expires < this.now()`.
abbrev pub pending : ℕ → Option Entry → Option Entry
pending now none = none
pending now (some entry) = if ltb entry.expires now then none else some entry

abbrev pub is_wallet : String → Option String → Bool
is_wallet wallet none = false
is_wallet wallet (some recovered) = recovered == wallet

module _ (sdk : Sdk) (keccak_256 : Bytes → Bytes) (ttl : Ttl) where
  -- The new nonce is the argument `nonce`.
  unfoldable pub issue_nonce : String → ℕ → String → Exec Sessions Issued
  issue_nonce wallet now nonce = do
    modify (λ s. record s {
      nonces =
          set (prune now s.nonces) wallet (record { value = nonce; expires = now + ttl.nonce });
    })
    pure (record { nonce = nonce; message = login_message wallet nonce })

  -- The new token is the argument `token`.
  unfoldable pub login : String → String → ℕ → String → Exec Sessions Session
  login wallet signature now token = do
    entry ← gets (λ s. pending now (get s.nonces wallet))
    nonce ← or_raise entry (api 401 "no pending nonce, request a new one")
    guard
        (is_wallet wallet
          (recover_wallet sdk keccak_256 (login_message wallet nonce.value) signature))
        (api 401 "signature does not match wallet")
    let expires_at = now + ttl.token
    modify (λ s. record s {
      nonces = delete s.nonces wallet;
      tokens = set (prune now s.tokens) token (record { value = wallet; expires = expires_at });
      table =
          store_session now (record { token = token; wallet = wallet; expires = expires_at })
            s.table;
    })
    pure (record { token = token; expires_at = expires_at })
