-- ===== src/Start.antt =====
-- server/src/main.ts: the settings that `bootstrap` reads, and its refusal of the published defaults.
-- An environment variable is `none` where it is not set.
use foreseer.Base.{
  ◌≡◌, ◌≢◌, ◌↔◌, ◌⊎◌, inl, inr, String, Bool, true, false, ◌&&◌, not, Option, none, some, List, [],
  ◌∷◌, ◌++◌, arith, ltb, length, ◌==◌, nat_eq, string_eq, text_iff, if◌then◌else◌,
}

pub record Environment : Type 0 where
  pub admin_key : Option String
  pub tee_key : Option String
  pub allow_dev_defaults : Option String

abbrev pub admin_key_of : Option String → String
admin_key_of none = "dev-admin-key"
admin_key_of (some key) = key

abbrev pub is_allowed : Option String → Bool
is_allowed none = false
is_allowed (some flag) = flag == "1"

abbrev pub admin_problem : String → List String
admin_problem key =
    if key == "dev-admin-key" then "FORESEER_ADMIN_KEY is the published default" ∷ [] else []

abbrev pub tee_problem : Option String → List String
tee_problem none =
    "FORESEER_TEE_KEY is unset, receipts would be signed by the public reference key" ∷ []
tee_problem (some key) = []

-- What is printed before `process.exit(1)`, or as a warning.
unfoldable pub insecure : Environment → List String
insecure env = admin_problem (admin_key_of env.admin_key) ++ tee_problem env.tee_key

-- Whether the server goes on to open its tables.
unfoldable pub starts : Environment → Bool
unfolding insecure
starts env = not (ltb 0 (length (insecure env)) && not (is_allowed env.allow_dev_defaults))

-- Whether the settings are the operator's own.
abbrev IsOwn : String → Option String → Type 0
IsOwn key tee = (key ≢ "dev-admin-key") × (tee ≢ none)

allowed-starts :
    (flag : Bool) (problems : List String)
    → (not (ltb 0 (length problems) && not flag) ≡ true) ↔ ((flag ≡ true) ⊎ (problems ≡ []))
allowed-starts true problems = ground arith
allowed-starts false [] = ground arith
allowed-starts false (p ∷ ps) = ground arith

no_problem :
    (key : String) (tee : Option String)
    → (admin_problem key ++ tee_problem tee ≡ []) ↔ IsOwn key tee
no_problem key none = ground (arith, text_iff key "dev-admin-key")
no_problem key (some k) = ground (arith, text_iff key "dev-admin-key")

-- The server starts exactly if the published defaults are allowed, or the admin key is set to
-- another text than the published one and a signing key is set.
pub starts_iff :
    (env : Environment)
    → (starts env ≡ true) ↔ (
        (is_allowed env.allow_dev_defaults ≡ true)
        ⊎ ((admin_key_of env.admin_key ≢ "dev-admin-key") × (env.tee_key ≢ none)))
unfolding starts insecure
starts_iff env =
    let (there, back) =
      allowed-starts (is_allowed env.allow_dev_defaults)
        (admin_problem (admin_key_of env.admin_key) ++ tee_problem env.tee_key) in
    let (own, none_left) = no_problem (admin_key_of env.admin_key) env.tee_key in
    (
      λ h. elim (there h) [ inl a ↦ inl a | inr e ↦ inr (own e) ],
      λ h. back (elim h [ inl a ↦ inl a | inr o ↦ inr (none_left o) ]),
    )
