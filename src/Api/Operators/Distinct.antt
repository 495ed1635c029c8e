-- ===== src/Api/Operators/Distinct.antt =====
-- What a creation does to the table: names, keys and ids stay distinct.
use foreseer.Base.{
  ℕ, suc, ◌+◌, ◌<◌, ◌≡◌, refl, String, true, false, Option, none, some, List, [], ◌∷◌, arith, ◌==◌,
  nat_eq, string_eq, text_iff, any, ◌⊎◌, inl, inr, Bool-cases,
}
use foreseer.Base.Exec.{Error, Result, Result-cases, ok, err, api}
use foreseer.Json.{Value, get}
use foreseer.Db.{Db, OperatorRow}
use foreseer.Engine.{Engine}
use foreseer.Api.Operators.{
  name_of, owner_of, insert_operator, operator_by_name, Created, new_key, created, create_operator,
}

-- No two operators share a name or a key, and the ids are below `bound` and fall.
abbrev pub AreDistinct : ℕ → List OperatorRow → Type 0
AreDistinct bound [] = Unit
AreDistinct bound (o ∷ os) =
    (o.id < bound)
    × (any (λ p. p.name == o.name) os ≡ false)
    × (any (λ p. p.api_key_hash == o.api_key_hash) os ≡ false)
    × AreDistinct o.id os

-- The ids are those that the counter has given.
abbrev pub OperatorsAreDistinct : Db → Type 0
OperatorsAreDistinct db = AreDistinct (suc db.last_operator_id) db.operators

abbrev pub new_row : String → String → ℕ → Option String → Db → OperatorRow
new_row name key_hash now owner db = record {
  id = db.last_operator_id + 1;
  name = name;
  api_key_hash = key_hash;
  created_at = now;
  owner_wallet = owner;
  active = 1;
}

abbrev pub with_operator : String → String → ℕ → Option String → Db → Db
with_operator name key_hash now owner db = record db {
  operators = new_row name key_hash now owner db ∷ db.operators;
  last_operator_id = db.last_operator_id + 1;
}

-- The name and the key's hash are new.
pub record IsNew (name key_hash : String) (db : Db) : Type 0 where
  pub free_name : any (λ o. o.name == name) db.operators ≡ false
  pub free_key : any (λ o. o.api_key_hash == key_hash) db.operators ≡ false

taken-not-IsNew :
    (name key_hash : String) (db : Db)
    → (any (λ o. o.name == name) db.operators ≡ true)
      ⊎ (any (λ o. o.api_key_hash == key_hash) db.operators ≡ true)
    → ¬ (IsNew name key_hash db)
taken-not-IsNew name key_hash db (inl h) new = absurd (ground (arith, new.free_name))
taken-not-IsNew name key_hash db (inr h) new = absurd (ground (arith, new.free_key))

pub insert_operator_cases :
    (name key_hash : String) (now : ℕ) (owner : Option String) (db : Db)
    → ((insert_operator name key_hash now owner db ≡ none) × (¬ (IsNew name key_hash db)))
      ⊎ (IsNew name key_hash db
          × (insert_operator name key_hash now owner db
              ≡ some (with_operator name key_hash now owner db)))
unfolding insert_operator
insert_operator_cases name key_hash now owner db =
    elim (Bool-cases (any (λ o. o.name == name) db.operators)) [
      | inl n ↦ inl (ground arith, taken-not-IsNew name key_hash db (inl n))
      | inr n ↦ elim (Bool-cases (any (λ o. o.api_key_hash == key_hash) db.operators)) [
        | inl k ↦ inl (ground arith, taken-not-IsNew name key_hash db (inr k))
        | inr k ↦ inr (record { free_name = n; free_key = k }, ground arith)
      ]
    ]

module _ (sha256 : String → String) (body : Value) (now : ℕ) (random : String) where
  abbrev pub key_hash : String
  key_hash = sha256 (new_key random)

  abbrev pub after_insert : String → Option String → Engine → Engine
  after_insert name owner s = record s { db = with_operator name key_hash now owner s.db }

  abbrev pub answer : String → Option String → Engine → Created
  answer name owner s = created sha256 (new_row name key_hash now owner s.db) random

  -- The two ends of the creation of an operator.
  pub data CreateAnswer (s : Engine) : Result Created × Engine → Type 0 where
    refused : (e : Error) → CreateAnswer s (err e, s)
    made :
        (name : String) (owner : Option String)
        → IsNew name key_hash s.db
        → CreateAnswer s (ok (answer name owner s), after_insert name owner s)

  create_operator-made :
      (name : String) (owner : Option String) (s : Engine)
      → name_of (get body "name") ≡ ok name
      → owner_of (get body "ownerWallet") ≡ ok owner
      → insert_operator name key_hash now owner s.db
        ≡ some (with_operator name key_hash now owner s.db)
      → create_operator sha256 body now random s
        ≡ (ok (answer name owner s), after_insert name owner s)
  unfolding create_operator operator_by_name
  create_operator-made name owner s n o i = rw (n, o, i) (ground (arith, text_iff name name))

  create_operator-taken :
      (name : String) (owner : Option String) (s : Engine)
      → name_of (get body "name") ≡ ok name
      → owner_of (get body "ownerWallet") ≡ ok owner
      → insert_operator name key_hash now owner s.db ≡ none
      → create_operator sha256 body now random s ≡ (err (api 409 "operator name already exists"), s)
  unfolding create_operator
  create_operator-taken name owner s n o i = rw (n, o, i) refl

  create_operator-bad_name :
      (e : Error) (s : Engine)
      → name_of (get body "name") ≡ err e
      → create_operator sha256 body now random s ≡ (err e, s)
  unfolding create_operator
  create_operator-bad_name e s n = rw n refl

  create_operator-bad_owner :
      (name : String) (e : Error) (s : Engine)
      → name_of (get body "name") ≡ ok name
      → owner_of (get body "ownerWallet") ≡ err e
      → create_operator sha256 body now random s ≡ (err e, s)
  unfolding create_operator
  create_operator-bad_owner name e s n o = rw (n, o) refl

  -- Creating an operator is refused with nothing changed, or adds an operator whose name and key are new.
  pub create_operator_answers :
      (s : Engine) → CreateAnswer s (create_operator sha256 body now random s)
  create_operator_answers s = elim (Result-cases (name_of (get body "name"))) [
    | inl (e, n) ↦ rw (create_operator-bad_name e s n) (refused e)
    | inr (name, n) ↦ elim (Result-cases (owner_of (get body "ownerWallet"))) [
      | inl (e, o) ↦ rw (create_operator-bad_owner name e s n o) (refused e)
      | inr (owner, o) ↦ elim (insert_operator_cases name key_hash now owner s.db) [
        | inl (i, old) ↦
            rw (create_operator-taken name owner s n o i)
              (refused (api 409 "operator name already exists"))
        | inr (new, i) ↦ rw (create_operator-made name owner s n o i) (made name owner new)
      ]
    ]
  ]
