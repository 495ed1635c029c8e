-- ===== src/Api/Operators.antt =====
-- The handlers that write the table `operators`: AdminController.createOperator and setActive, and
-- BillingController.createForWallet. The random part of a new key is the argument `random`; SHA-256 is
-- the argument `sha256`.
pub mod Keys
pub mod Frame
pub mod Distinct
pub mod Services
use Prim.Native.String.{◌++◌}
use foreseer.Base.{
  ℕ, zero, suc, ◌+◌, String, Bool, true, false, ◌||◌, ◌&&◌, Option, none, some, List, [], ◌∷◌, ltb,
  leb, ◌==◌, nat_eq, string_eq, if◌then◌else◌, any, find, count, map, not,
}
use foreseer.Base.Exec.{
  Result, ok, err, api, thrown, Exec, pure, lift, gets, modify, guard, or_raise, ◌>>=◌, ◌>>◌,
}
use foreseer.Base.Text.{codes, decimal}
use foreseer.Json.{Value, undefined, string, boolean, get}
use foreseer.Db.{Db, OperatorRow}
use foreseer.Engine.{Engine}
use foreseer.Wallet.{Sessions, wallet_for}
use foreseer.Wallet.Text.{parse_wallet}

-- String.prototype.length: two units for a code point above 0xffff.
abbrev pub utf16_length : List ℕ → ℕ
utf16_length [] = 0
utf16_length (c ∷ cs) =
    let rest = utf16_length cs in if ltb 0xffff c then suc (suc rest) else suc rest

abbrev pub is_name_length : ℕ → Bool
is_name_length n = leb 1 n && leb n 64

-- `typeof name !== "string" || name.length < 1 || name.length > 64`.
abbrev pub name_of : Value → Result String
name_of (string s) =
    if is_name_length (utf16_length (codes s))
    then ok s
    else err (api 400 "name must be a 1..64 char string")
name_of _ = err (api 400 "name must be a 1..64 char string")

-- `b?.ownerWallet === undefined ? null : parseWallet(b.ownerWallet)`.
abbrev pub some_wallet : Result String → Result (Option String)
some_wallet (ok wallet) = ok (some wallet)
some_wallet (err e) = err e

unfoldable pub owner_of : Value → Result (Option String)
owner_of undefined = ok none
owner_of v = some_wallet (parse_wallet v)

-- INSERT INTO operators; `none` where the name or the key's hash is taken.
unfoldable pub insert_operator : String → String → ℕ → Option String → Db → Option Db
insert_operator name key_hash now owner db =
    if any (λ o. o.name == name) db.operators || any (λ o. o.api_key_hash == key_hash) db.operators
    then none
    else some (record db {
      operators =
          record {
            id = db.last_operator_id + 1;
            name = name;
            api_key_hash = key_hash;
            created_at = now;
            owner_wallet = owner;
            active = 1;
          }
          ∷ db.operators;
      last_operator_id = db.last_operator_id + 1;
    })

unfoldable pub operator_by_name : String → Db → Option OperatorRow
operator_by_name name db = find (λ o. o.name == name) db.operators

abbrev pub has_owner : String → Option String → Bool
has_owner wallet none = false
has_owner wallet (some owner) = owner == wallet

-- SELECT COUNT(*) FROM operators WHERE owner_wallet = ?.
unfoldable pub owned_by : String → List OperatorRow → ℕ
owned_by wallet operators = count (λ o. has_owner wallet o.owner_wallet) operators

-- UPDATE operators SET active = ? WHERE id = ?.
abbrev pub set_active_of : ℕ → ℕ → OperatorRow → OperatorRow
set_active_of id active o = if o.id == id then record o { active = active } else o

abbrev pub flag_of : Value → Result Bool
flag_of (boolean b) = ok b
flag_of _ = err (api 400 "active must be a boolean")

pub record Created : Type 0 where
  pub id : ℕ
  pub name : String
  pub owner_wallet : Option String
  pub api_key : String

-- String.prototype.slice(2, 10) of a wallet.
unfoldable pub drop_chars : ℕ → String → String
drop_chars zero s = s
drop_chars (suc n) String.[] = ""
drop_chars (suc n) (String.◌∷◌ c s) = drop_chars n s

unfoldable pub take_chars : ℕ → String → String
take_chars zero s = ""
take_chars (suc n) String.[] = ""
take_chars (suc n) (String.◌∷◌ c s) = String.◌∷◌ c (take_chars n s)

-- `raw === undefined ? ... : raw`.
unfoldable pub service_name : Value → String → ℕ → Value
unfolding drop_chars take_chars
service_name undefined wallet owned =
    string ("service-" ++ take_chars 8 (drop_chars 2 wallet) ++ "-" ++ decimal (owned + 1))
service_name raw wallet owned = raw

abbrev pub new_key : String → String
new_key random = "fsk_" ++ random

-- `typeof token === "string" ? sessions.walletFor(token) : null`, and its error.
abbrev pub wallet_of : Sessions → ℕ → Option String → Result String
wallet_of sessions now none = err (api 401 "wallet login required")
wallet_of sessions now (some token) = elim (wallet_for now token sessions) [
  | some wallet ↦ ok wallet
  | none ↦ err (api 401 "wallet login required")
]

module _ (sha256 : String → String) where
  abbrev pub insert_new : String → Option String → String → ℕ → Exec Engine (Unit {0})
  insert_new name owner random now = do
    inserted ← gets (λ s. insert_operator name (sha256 (new_key random)) now owner s.db)
    db ← or_raise inserted (api 409 "operator name already exists")
    modify (λ s. record s { db = db })

  abbrev pub created : OperatorRow → String → Created
  created row random = record {
    id = row.id;
    name = row.name;
    owner_wallet = row.owner_wallet;
    api_key = new_key random;
  }

  -- POST /admin/operators.
  unfoldable pub create_operator : Value → ℕ → String → Exec Engine Created
  unfolding insert_operator operator_by_name
  create_operator body now random = do
    name ← lift (name_of (get body "name"))
    owner ← lift (owner_of (get body "ownerWallet"))
    insert_new name owner random now
    found ← gets (λ s. operator_by_name name s.db)
    row ← or_raise found thrown
    pure (created row random)

  -- POST /billing/operators, for the wallet of the session.
  unfoldable pub create_for_wallet :
      Sessions → Option String → Value → ℕ → String → Exec Engine Created
  unfolding insert_operator owned_by service_name
  create_for_wallet sessions token body now random = do
    wallet ← lift (wallet_of sessions now token)
    owned ← gets (λ s. owned_by wallet s.db.operators)
    guard (not (leb 5 owned)) (api 409 "this wallet already has 5 services")
    name ← lift (name_of (service_name (get body "name") wallet owned))
    insert_new name (some wallet) random now
    found ← gets (λ s. find (λ o. o.api_key_hash == sha256 (new_key random)) s.db.operators)
    row ← or_raise found thrown
    pure (record (created row random) { owner_wallet = some wallet })

-- POST /admin/operators/:id/active.
unfoldable pub set_active : ℕ → Value → Exec Engine Bool
set_active id body = do
  active ← lift (flag_of (get body "active"))
  known ← gets (λ s. any (λ o. o.id == id) s.db.operators)
  modify (λ s. record s {
    db = record s.db {
      operators = map (set_active_of id (if active then 1 else 0)) s.db.operators;
    };
  })
  guard known (api 404 "unknown operator")
  pure active
