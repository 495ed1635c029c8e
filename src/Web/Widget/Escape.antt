-- ===== src/Web/Widget/Escape.antt =====
-- What `esc` lets into the page cannot open a tag or leave an attribute.
use Prim.Native.Char.{code}
use foreseer.Base.{
  ℕ, ◌≡◌, refl, String, Bool, true, ◌&&◌, not, ◌||◌, Option, none, some, List, [], ◌∷◌, ◌++◌, arith,
  every, inl, inr, ◌==◌, nat_eq, Option-cases, Bool-cases,
}
use foreseer.Base.Text.{codes}
use foreseer.Base.Text.Decimal.{codes-append}
use foreseer.Web.Widget.{escape_char, esc}

-- No angle bracket and no quote.
abbrev pub is_plain : ℕ → Bool
is_plain c = not (c == b'<' || c == b'>' || c == 34 || c == 39)

every-append : (p : ℕ → Bool) (xs ys : List ℕ) → every p (xs ++ ys) ≡ (every p xs && every p ys)
every-append p [] ys = refl
every-append p (x ∷ xs) ys = ground (arith, every-append p xs ys)

same_plain :
    (o : Option String) (t u : String)
    → o ≡ some t
    → o ≡ some u
    → every is_plain (codes u) ≡ true
    → every is_plain (codes t) ≡ true
same_plain o t u p q h = let e : t ≡ u = ground arith in rw e h

escape_char-plain : (c : ℕ) (t : String) → escape_char c ≡ some t → every is_plain (codes t) ≡ true
unfolding escape_char
escape_char-plain c t h = elim (Bool-cases (c == b'&')) [
  | inl a ↦ same_plain (escape_char c) t "&amp;" h (ground arith) refl
  | inr a ↦ elim (Bool-cases (c == b'<')) [
    | inl l ↦ same_plain (escape_char c) t "&lt;" h (ground arith) refl
    | inr l ↦ elim (Bool-cases (c == b'>')) [
      | inl g ↦ same_plain (escape_char c) t "&gt;" h (ground arith) refl
      | inr g ↦ elim (Bool-cases (c == 34)) [
        | inl q ↦ same_plain (escape_char c) t "&quot;" h (ground arith) refl
        | inr q ↦ elim (Bool-cases (c == 39)) [
          | inl s ↦ same_plain (escape_char c) t "&#39;" h (ground arith) refl
          | inr s ↦ absurd (ground arith)
        ]
      ]
    ]
  ]
]

escape_char-none : (c : ℕ) → escape_char c ≡ none → is_plain c ≡ true
unfolding escape_char
escape_char-none c h = ground arith

-- An escaped text has no angle bracket and no quote.
pub esc-is_plain : (s : String) → every is_plain (codes (esc s)) ≡ true
unfolding esc
esc-is_plain String.[] = refl
esc-is_plain (String.◌∷◌ c s) = elim (Option-cases (escape_char (code c))) [
  | inl keep ↦ ground (arith, escape_char-none (code c) keep, esc-is_plain s)
  | inr (t, swap) ↦ ground (
    arith,
    codes-append t (esc s),
    every-append is_plain (codes t) (codes (esc s)),
    escape_char-plain (code c) t swap,
    esc-is_plain s,
  )
]
