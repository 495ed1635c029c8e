-- ===== src/Api/Operators/Services.antt =====
-- BillingController.createForWallet: every answer to a self-serve creation.
use Prim.Native.String.{◌++◌}
use foreseer.Base.{
  ℕ, ◌+◌, ◌<◌, ◌≤◌, ◌≡◌, refl, String, false, Option, none, some, arith, leb, nat_eq, string_eq,
  text_iff, ◌⊎◌, inl, inr, Bool-cases, Option-cases, subst,
}
use foreseer.Base.Exec.{Error, Result, ok, err, api}
use foreseer.Base.Text.{codes, decimal}
use foreseer.Json.{Value, get, undefined, null, fraction, boolean, integer, string, array, object}
use foreseer.Engine.{Engine}
use foreseer.Wallet.{Sessions, wallet_for}
use foreseer.Api.Operators.{
  name_of, insert_operator, owned_by, Created, service_name, take_chars, drop_chars, utf16_length,
  is_name_length, wallet_of, create_for_wallet,
}
use foreseer.Api.Operators.Distinct.{
  IsNew, insert_operator_cases, with_operator, key_hash, after_insert, answer,
}

-- A name has 1 to 64 units of UTF-16.
abbrev pub IsName : String → Type 0
IsName s = (1 ≤ utf16_length (codes s)) × (utf16_length (codes s) ≤ 64)

-- The name that a request for a service of `wallet` asks for, if it owns `owned` of them.
abbrev pub IsAskedFor : Value → String → ℕ → String → Type 0
IsAskedFor raw wallet owned name =
    (raw ≡ string name)
    ⊎ ((raw ≡ undefined)
        × (name ≡ "service-" ++ take_chars 8 (drop_chars 2 wallet) ++ "-" ++ decimal (owned + 1)))

abbrev bad_name_error : Error
bad_name_error = api 400 "name must be a 1..64 char string"

-- No name that is asked for is of a valid length.
abbrev NoName : Value → String → ℕ → Type 0
NoName raw wallet owned = (n : String) → IsAskedFor raw wallet owned n → ¬ (IsName n)

-- The end of the check of a name: the error, and no name that may be taken, or the name.
abbrev NameAnswer : Value → String → ℕ → Result String → Type 0
NameAnswer raw wallet owned r =
    ((r ≡ err bad_name_error) × NoName raw wallet owned)
    ⊎ ((n : String) × (r ≡ ok n) × IsAskedFor raw wallet owned n × IsName n)

name_of-text :
    (s : String)
    → ((name_of (string s) ≡ err bad_name_error) × (¬ (IsName s)))
      ⊎ ((name_of (string s) ≡ ok s) × IsName s)
name_of-text s = elim (Bool-cases (is_name_length (utf16_length (codes s)))) [
  | inl good ↦ inr (ground arith, (ground arith, ground arith))
  | inr bad ↦ inl (ground arith, λ n. ground arith)
]

string-string : (s n : String) → string s ≡ string n → n ≡ s
string-string s n h = ground arith

undefined-NoName :
    (wallet : String) (owned : ℕ)
    → ¬ (IsName ("service-" ++ take_chars 8 (drop_chars 2 wallet) ++ "-" ++ decimal (owned + 1)))
    → NoName undefined wallet owned
undefined-NoName wallet owned bad n (inl h) k = absurd (ground arith)
undefined-NoName wallet owned bad n (inr (u, q)) k = bad (subst IsName q k)

string-NoName : (s wallet : String) (owned : ℕ) → ¬ (IsName s) → NoName (string s) wallet owned
string-NoName s wallet owned bad n (inl h) k = bad (subst IsName (string-string s n h) k)
string-NoName s wallet owned bad n (inr (u, q)) k = absurd (ground arith)

other-NoName :
    (raw : Value) (wallet : String) (owned : ℕ)
    → ((n : String) → ¬ (raw ≡ string n))
    → ¬ (raw ≡ undefined)
    → NoName raw wallet owned
other-NoName raw wallet owned t u n (inl h) k = absurd (t n h)
other-NoName raw wallet owned t u n (inr (h, q)) k = absurd (u h)

name_of-raw :
    (raw : Value) (wallet : String) (owned : ℕ)
    → NameAnswer raw wallet owned (name_of (service_name raw wallet owned))
unfolding service_name
name_of-raw undefined wallet owned =
    let s = "service-" ++ take_chars 8 (drop_chars 2 wallet) ++ "-" ++ decimal (owned + 1) in
    elim (name_of-text s) [
      | inr (q, n) ↦ inr (s, q, inr (refl, refl), n)
      | inl (q, bad) ↦ inl (q, undefined-NoName wallet owned bad)
    ]
name_of-raw (string s) wallet owned = elim (name_of-text s) [
  | inr (q, n) ↦ inr (s, q, inl refl, n)
  | inl (q, bad) ↦ inl (q, string-NoName s wallet owned bad)
]
name_of-raw null wallet owned =
    inl (refl, other-NoName null wallet owned (λ n h. ground arith) (λ h. ground arith))
name_of-raw fraction wallet owned =
    inl (refl, other-NoName fraction wallet owned (λ n h. ground arith) (λ h. ground arith))
name_of-raw (boolean b) wallet owned =
    inl (refl, other-NoName (boolean b) wallet owned (λ n h. ground arith) (λ h. ground arith))
name_of-raw (integer z) wallet owned =
    inl (refl, other-NoName (integer z) wallet owned (λ n h. ground arith) (λ h. ground arith))
name_of-raw (array xs) wallet owned =
    inl (refl, other-NoName (array xs) wallet owned (λ n h. ground arith) (λ h. ground arith))
name_of-raw (object fs) wallet owned =
    inl (refl, other-NoName (object fs) wallet owned (λ n h. ground arith) (λ h. ground arith))

-- The wallet of the session that a token stands for, if there is one.
abbrev wallet_of_token : Sessions → ℕ → Option String → Option String
wallet_of_token sessions now none = none
wallet_of_token sessions now (some token) = wallet_for now token sessions

wallet_of-wallet_of_token :
    (sessions : Sessions) (now : ℕ) (token : Option String)
    → ((wallet_of_token sessions now token ≡ none)
        × (wallet_of sessions now token ≡ err (api 401 "wallet login required")))
      ⊎ ((wallet : String) × (wallet_of_token sessions now token ≡ some wallet)
          × (wallet_of sessions now token ≡ ok wallet))
wallet_of-wallet_of_token sessions now none = inl (refl, refl)
wallet_of-wallet_of_token sessions now (some token) =
    elim (Option-cases (wallet_for now token sessions)) [
      | inl q ↦ inl (q, ground arith)
      | inr (wallet, q) ↦ inr (wallet, q, ground arith)
    ]

module _ (sha256 : String → String) (body : Value) (now : ℕ) (random : String) (sessions : Sessions)
    (token : Option String) (s : Engine) where
  abbrev owned : String → ℕ
  owned wallet = owned_by wallet s.db.operators

  -- What a self-serve creation ends in; a wallet gets its fifth operator and no more.
  pub data ServiceAnswer : Result Created × Engine → Type 0 where
    no_session :
        wallet_of_token sessions now token ≡ none
        → ServiceAnswer (err (api 401 "wallet login required"), s)
    full :
        (wallet : String)
        → wallet_of_token sessions now token ≡ some wallet
        → 5 ≤ owned wallet
        → ServiceAnswer (err (api 409 "this wallet already has 5 services"), s)
    unnamed :
        (wallet : String)
        → wallet_of_token sessions now token ≡ some wallet
        → owned wallet < 5
        → NoName (get body "name") wallet (owned wallet)
        → ServiceAnswer (err bad_name_error, s)
    taken :
        (wallet name : String)
        → wallet_of_token sessions now token ≡ some wallet
        → owned wallet < 5
        → IsAskedFor (get body "name") wallet (owned wallet) name
        → IsName name
        → ¬ (IsNew name (key_hash sha256 body now random) s.db)
        → ServiceAnswer (err (api 409 "operator name already exists"), s)
    provided :
        (wallet name : String)
        → wallet_of_token sessions now token ≡ some wallet
        → owned wallet < 5
        → IsAskedFor (get body "name") wallet (owned wallet) name
        → IsName name
        → IsNew name (key_hash sha256 body now random) s.db
        → ServiceAnswer (
          ok (answer sha256 body now random name (some wallet) s),
          after_insert sha256 body now random name (some wallet) s,
        )

  create_for_wallet-made :
      (wallet name : String)
      → wallet_of sessions now token ≡ ok wallet
      → leb 5 (owned wallet) ≡ false
      → name_of (service_name (get body "name") wallet (owned wallet)) ≡ ok name
      → insert_operator name (key_hash sha256 body now random) now (some wallet) s.db
        ≡ some (with_operator name (key_hash sha256 body now random) now (some wallet) s.db)
      → create_for_wallet sha256 sessions token body now random s ≡ (
        ok (answer sha256 body now random name (some wallet) s),
        after_insert sha256 body now random name (some wallet) s,
      )
  unfolding create_for_wallet
  create_for_wallet-made wallet name w five n i =
      let hash = key_hash sha256 body now random in
      rw (w, five, n, i) (ground (arith, text_iff hash hash))

  named_answers :
      (wallet name : String)
      → wallet_of_token sessions now token ≡ some wallet
      → wallet_of sessions now token ≡ ok wallet
      → leb 5 (owned wallet) ≡ false
      → name_of (service_name (get body "name") wallet (owned wallet)) ≡ ok name
      → IsAskedFor (get body "name") wallet (owned wallet) name
      → IsName name
      → ServiceAnswer (create_for_wallet sha256 sessions token body now random s)
  unfolding create_for_wallet
  named_answers wallet name q w few n asked k =
      elim (insert_operator_cases name (key_hash sha256 body now random) now (some wallet) s.db) [
        | inl (i, old) ↦ rw (w, few, n, i) (taken wallet name q (ground arith) asked k old)
        | inr (new, i) ↦
            rw (create_for_wallet-made wallet name w few n i)
              (provided wallet name q (ground arith) asked k new)
      ]

  -- A self-serve creation is refused, with nothing changed, for want of a session, for a wallet
  -- with five operators, for a name that is no text of 1 to 64 units, or for a name or a key that
  -- is taken; else it adds an operator of the session's wallet with the name that was asked for,
  -- or the default one, and a new key.
  pub create_for_wallet_answers :
      ServiceAnswer (create_for_wallet sha256 sessions token body now random s)
  unfolding create_for_wallet
  create_for_wallet_answers = elim (wallet_of-wallet_of_token sessions now token) [
    | inl (q, w) ↦ rw w (no_session q)
    | inr (wallet, q, w) ↦ elim (Bool-cases (leb 5 (owned wallet))) [
      | inl five ↦ rw (w, five) (full wallet q (ground arith))
      | inr few ↦ elim (name_of-raw (get body "name") wallet (owned wallet)) [
        | inl (n, bad) ↦ rw (w, few, n) (unnamed wallet q (ground arith) bad)
        | inr (name, n, asked, k) ↦ named_answers wallet name q w few n asked k
      ]
    ]
  ]
