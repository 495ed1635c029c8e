-- ===== src/Api/Operators/Keys.antt =====
-- Keys and the guard: a new key opens the door until its operator is suspended.
use foreseer.Base.{
  ℕ, ◌≤◌, ◌≡◌, ◌≢◌, refl, ap, sym, String, Bool, false, Option, some, List, [], ◌∷◌, arith, ◌==◌,
  nat_eq, string_eq, text_iff, if◌then◌else◌, any, find, map, inl, inr, Bool-cases,
}
use foreseer.Base.Exec.{Result, Result-cases, ok}
use foreseer.Json.{Value, get}
use foreseer.Db.{Db, OperatorRow}
use foreseer.Engine.{Engine}
use foreseer.Wallet.{Sessions}
use foreseer.Guards.{Request, operator_guard, operator_by_key}
use foreseer.Guards.Access.{operator_guard_iff}
use foreseer.Api.Operators.{
  Created, set_active_of, flag_of, owned_by, new_key, create_operator, create_for_wallet,
  set_active,
}
use foreseer.Api.Operators.Distinct.{
  AreDistinct, OperatorsAreDistinct, IsNew, new_row, with_operator, CreateAnswer, refused, made,
  after_insert, answer, create_operator_answers,
}
use foreseer.Api.Operators.Services.{
  ServiceAnswer, no_session, full, unnamed, taken, provided, create_for_wallet_answers,
}

with_operator-OperatorsAreDistinct :
    (name key_hash : String) (now : ℕ) (owner : Option String) (db : Db)
    → IsNew name key_hash db
    → OperatorsAreDistinct db
    → OperatorsAreDistinct (with_operator name key_hash now owner db)
with_operator-OperatorsAreDistinct name key_hash now owner db new d =
    (omega arith, new.free_name, new.free_key, ground arith)

module _ (sha256 : String → String) where
  -- The guard finds the row that was just added by its key.
  guard-new :
      (name key : String) (now : ℕ) (owner : Option String) (db : Db) (req : Request)
      → req.api_key ≡ some key
      → operator_guard sha256 (with_operator name (sha256 key) now owner db) req
        ≡ ok (new_row name (sha256 key) now owner db)
  unfolding operator_guard operator_by_key
  guard-new name key now owner db req k = ground (arith, text_iff (sha256 key) (sha256 key))

  module _ (body : Value) (now : ℕ) (random : String) where
    passes-made :
        (s s' : Engine) (r : Created) (req : Request) (x : Result Created × Engine)
        → CreateAnswer sha256 body now random s x
        → x ≡ (ok r, s')
        → req.api_key ≡ some r.api_key
        → (row : OperatorRow) × (operator_guard sha256 s'.db req ≡ ok row)
          × (row.id ≡ r.id)
          × (row.name ≡ r.name)
          × (row.owner_wallet ≡ r.owner_wallet)
    passes-made s s' r req x (refused e) q k = absurd (ground arith)
    passes-made s s' r req x (made name owner new) q k =
        let row = new_row name (sha256 (new_key random)) now owner s.db in
        let state : s' ≡ after_insert sha256 body now random name owner s = ground arith in
        let answered : r ≡ answer sha256 body now random name owner s = ground arith in
        (
          row,
          rw state (
              guard-new name (new_key random) now owner s.db req
                (rw (ap (λ (c : Created). c.api_key) (sym answered)) k)),
          rw answered refl,
          rw answered refl,
          rw answered refl,
        )

    -- The key that an operator is created with opens OperatorGuard at once, for that operator.
    pub create_operator-operator_guard :
        (s s' : Engine) (r : Created) (req : Request)
        → create_operator sha256 body now random s ≡ (ok r, s')
        → req.api_key ≡ some r.api_key
        → (row : OperatorRow) × (operator_guard sha256 s'.db req ≡ ok row)
          × (row.id ≡ r.id)
          × (row.name ≡ r.name)
          × (row.owner_wallet ≡ r.owner_wallet)
    create_operator-operator_guard s s' r req h k =
        passes-made s s' r req (create_operator sha256 body now random s)
          (create_operator_answers sha256 body now random s) h k

    made-OperatorsAreDistinct :
        (s : Engine) (x : Result Created × Engine)
        → CreateAnswer sha256 body now random s x
        → OperatorsAreDistinct s.db
        → OperatorsAreDistinct x.1.db
    made-OperatorsAreDistinct s x (refused e) d = d
    made-OperatorsAreDistinct s x (made name owner new) d =
        with_operator-OperatorsAreDistinct name (sha256 (new_key random)) now owner s.db new d

    -- If no two operators share a name, a key or an id, then none do after a creation by the
    -- admin, whether it succeeds or not.
    pub create_operator-OperatorsAreDistinct :
        (s : Engine)
        → OperatorsAreDistinct s.db
        → OperatorsAreDistinct (create_operator sha256 body now random s).1.db
    create_operator-OperatorsAreDistinct s d =
        made-OperatorsAreDistinct s (create_operator sha256 body now random s)
          (create_operator_answers sha256 body now random s) d

    module _ (sessions : Sessions) (token : Option String) where
      provided-OperatorsAreDistinct :
          (s : Engine) (x : Result Created × Engine)
          → ServiceAnswer sha256 body now random sessions token s x
          → OperatorsAreDistinct s.db
          → OperatorsAreDistinct x.1.db
      provided-OperatorsAreDistinct s x (no_session q) d = d
      provided-OperatorsAreDistinct s x (full wallet q five) d = d
      provided-OperatorsAreDistinct s x (unnamed wallet q few bad) d = d
      provided-OperatorsAreDistinct s x (taken wallet name q few asked k old) d = d
      provided-OperatorsAreDistinct s x (provided wallet name q few asked k new) d =
          with_operator-OperatorsAreDistinct name (sha256 (new_key random)) now (some wallet) s.db
            new d

      pub create_for_wallet-OperatorsAreDistinct :
          (s : Engine)
          → OperatorsAreDistinct s.db
          → OperatorsAreDistinct (create_for_wallet sha256 sessions token body now random s).1.db
      create_for_wallet-OperatorsAreDistinct s d =
          provided-OperatorsAreDistinct s
            (create_for_wallet sha256 sessions token body now random s)
            (create_for_wallet_answers sha256 body now random sessions token s) d

      provided-owned :
          (s : Engine) (x : Result Created × Engine) (w : String)
          → ServiceAnswer sha256 body now random sessions token s x
          → owned_by w s.db.operators ≤ 5
          → owned_by w x.1.db.operators ≤ 5
      unfolding owned_by
      provided-owned s x w (no_session q) h = h
      provided-owned s x w (full wallet q five) h = h
      provided-owned s x w (unnamed wallet q few bad) h = h
      provided-owned s x w (taken wallet name q few asked k old) h = h
      provided-owned s x w (provided wallet name q few asked k new) h =
          ground (arith, text_iff wallet w)

      -- If a wallet owns five operators at most, then it does after a self-serve creation, whoever
      -- asked for it.
      pub create_for_wallet-owned_by :
          (s : Engine) (wallet : String)
          → owned_by wallet s.db.operators ≤ 5
          → owned_by wallet
              (create_for_wallet sha256 sessions token body now random s).1.db.operators
            ≤ 5
      create_for_wallet-owned_by s wallet h =
          provided-owned s (create_for_wallet sha256 sessions token body now random s) wallet
            (create_for_wallet_answers sha256 body now random sessions token s) h

any-set_active :
    (test : OperatorRow → Bool) (id active : ℕ) (os : List OperatorRow)
    → ((o : OperatorRow) → test (set_active_of id active o) ≡ test o)
    → any test (map (set_active_of id active) os) ≡ any test os
any-set_active test id active [] h = refl
any-set_active test id active (o ∷ os) h = rw (h o, any-set_active test id active os h) refl

AreDistinct-set_active :
    (bound id active : ℕ) (os : List OperatorRow)
    → AreDistinct bound os
    → AreDistinct bound (map (set_active_of id active) os)
AreDistinct-set_active bound id active [] d = tt
AreDistinct-set_active bound id active (o ∷ os) d =
    let rest = AreDistinct-set_active o.id id active os d.3 in
    let names = any-set_active (λ p. p.name == o.name) id active os (λ p. ground arith) in
    let keys =
      any-set_active (λ p. p.api_key_hash == o.api_key_hash) id active os (λ p. ground arith) in
    ground arith

find-set_active :
    (hash : String) (id active : ℕ) (os : List OperatorRow) (row : OperatorRow)
    → find (λ o. o.api_key_hash == hash) (map (set_active_of id active) os) ≡ some row
    → row.id ≡ id
    → row.active ≡ active
find-set_active hash id active [] row h e = absurd (ground arith)
find-set_active hash id active (o ∷ os) row h e =
    ground (arith, find-set_active hash id active os row)

set_active-operators :
    (id : ℕ) (body : Value) (s s' : Engine) (b : Bool)
    → set_active id body s ≡ (ok b, s')
    → s'.db.operators ≡ map (set_active_of id (if b then 1 else 0)) s.db.operators
unfolding set_active
set_active-operators id body s s' b h = elim (Result-cases (flag_of (get body "active"))) [
  | inl (e, q) ↦ absurd (ground arith)
  | inr (c, q) ↦ elim (Bool-cases (any (λ o. o.id == id) s.db.operators)) [
    | inl k ↦ ground arith
    | inr k ↦ absurd (ground arith)
  ]
]

-- Once an operator is suspended, OperatorGuard lets no request through for it.
pub set_active-operator_guard :
    (sha256 : String → String) (id : ℕ) (body : Value) (s s' : Engine) (req : Request)
    (row : OperatorRow)
    → set_active id body s ≡ (ok false, s')
    → operator_guard sha256 s'.db req ≡ ok row
    → row.id ≢ id
unfolding operator_by_key
set_active-operator_guard sha256 id body s s' req row h g =
    let (key, k, o, a) = (operator_guard_iff sha256 s'.db req row).0 g in
    let same = set_active-operators id body s s' false h in
    λ e. a (find-set_active (sha256 key) id 0 s.db.operators row (rw (← same) o) e)
