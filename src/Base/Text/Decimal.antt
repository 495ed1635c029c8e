-- ===== src/Base/Text/Decimal.antt =====
-- A number that is printed in decimal is read back.
use Prim.Native.Char.{code}
use Prim.Native.String
use text.Mathlib.TextLemmas.{nil-append, cons-append}
use foreseer.Base.{
  ℕ, zero, suc, ◌+◌, ◌/◌, ◌%◌, ◌≤◌, ◌<◌, ◌≡◌, refl, ap, ◌∙◌, String, List, [], ◌∷◌, ◌++◌, arith,
  ltb, inl, inr, Bool-cases, if◌then◌else◌,
}
use foreseer.Base.Text.{codes, decimal, digit, digits}

pub codes-append : (s t : String) → codes (String.◌++◌ s t) ≡ codes s ++ codes t
codes-append String.[] t = ap codes (nil-append t)
codes-append (String.◌∷◌ c s) t =
    ap codes (cons-append c s t) ∙ ap (λ r. code c ∷ r) (codes-append s t)

codes-digit : (n : ℕ) → n < 10 → codes (digit n) ≡ (b'0' + n) ∷ []
unfolding digit
codes-digit zero h = refl
codes-digit (suc zero) h = refl
codes-digit (suc (suc zero)) h = refl
codes-digit (suc (suc (suc zero))) h = refl
codes-digit (suc (suc (suc (suc zero)))) h = refl
codes-digit (suc (suc (suc (suc (suc zero))))) h = refl
codes-digit (suc (suc (suc (suc (suc (suc zero)))))) h = refl
codes-digit (suc (suc (suc (suc (suc (suc (suc zero))))))) h = refl
codes-digit (suc (suc (suc (suc (suc (suc (suc (suc zero)))))))) h = refl
codes-digit (suc (suc (suc (suc (suc (suc (suc (suc (suc zero))))))))) h = refl
codes-digit (suc (suc (suc (suc (suc (suc (suc (suc (suc (suc n)))))))))) h = absurd (omega arith)

-- The last digit of a number, after the digits of its tenth.
codes-digits :
    (fuel n : ℕ)
    → codes (digits (suc fuel) n)
      ≡ (if ltb n 10 then (b'0' + n) ∷ [] else codes (digits fuel (n / 10)) ++ (b'0' + n % 10) ∷ [])
unfolding digits
codes-digits fuel n = elim (Bool-cases (ltb n 10)) [
  | inl small ↦ ground (arith, codes-digit n (ground arith))
  | inr big ↦ ground (
    arith,
    codes-append (digits fuel (n / 10)) (digit (n % 10)),
    codes-digit (n % 10) (omega arith),
  )
]

module _ {ℓ} (P : ℕ → List ℕ → Type ℓ) (one : (n : ℕ) → n < 10 → P n ((b'0' + n) ∷ []))
    (more : (n : ℕ) (xs : List ℕ) → 10 ≤ n → P (n / 10) xs → P n (xs ++ (b'0' + n % 10) ∷ [])) where
  digits_induction : (fuel n : ℕ) → n < fuel → P n (codes (digits fuel n))
  digits_induction zero n h = absurd (omega arith)
  digits_induction (suc fuel) n h = elim (Bool-cases (ltb n 10)) [
    | inl small ↦ rw (codes-digits fuel n, small) (one n (ground arith))
    | inr big ↦
        rw (codes-digits fuel n, big)
          (more n (codes (digits fuel (n / 10))) (ground arith)
            (digits_induction fuel (n / 10) (ground arith)))
  ]

  -- What holds of one digit, and of a number when it holds of its tenth, holds of what is printed.
  pub decimal_induction : (n : ℕ) → P n (codes (decimal n))
  unfolding decimal
  decimal_induction n = digits_induction (suc n) n (omega arith)
