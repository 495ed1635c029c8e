-- ===== src/Base/JsMap/Entries.antt =====
-- What holds of every entry of a map.
use mathlib.Core.Path.{◌≡◌, sym, subst}
use mathlib.Core.Logic.{inl, inr}
use mathlib.Core.List.{List, [], ◌∷◌, ◌++◌}
use mathlib.Core.Option.{some}
use native.Mathlib.Omega.{arith}
use foreseer.Base.Tests.{Eq, ◌==◌, Bool-cases}
use foreseer.Base.JsMap.{JsMap, get, set, delete, delete_first}

abbrev pub All {ℓ κ} : {A : Type ℓ} → (A → Type κ) → List A → Type κ
All P [] = Unit
All P (x ∷ xs) = P x × All P xs

abbrev pub Entries {ℓ κ μ} : {K : Type ℓ} {V : Type κ} → (K → V → Type μ) → JsMap K V → Type μ
Entries P = All (λ x. P x.0 x.1)

pub All-append {ℓ κ} :
    {A : Type ℓ} (P : A → Type κ) (xs ys : List A) → All P xs → All P ys → All P (xs ++ ys)
All-append P [] ys h k = k
All-append P (x ∷ xs) ys h k = (h.0, All-append P xs ys h.1 k)

module _ {ℓ κ μ} {K : Type ℓ} {V : Type κ} ⦃e : Eq K⦄ (P : K → V → Type μ) where
  pub Entries-get : (m : JsMap K V) (k : K) (v : V) → Entries P m → get m k ≡ some v → P k v
  unfolding get
  Entries-get [] k v h q = absurd (ground arith)
  Entries-get ((j, w) ∷ m) k v h q = elim (Bool-cases (j == k)) [
    | inl same ↦
        let keys : j ≡ k = (e.beq_iff j k).0 same in
        let values : w ≡ v = ground arith in subst (P k) values (subst (λ i. P i w) keys h.0)
    | inr other ↦ Entries-get m k v h.1 (ground arith)
  ]

  pub Entries-delete : (m : JsMap K V) (k : K) → Entries P m → Entries P (delete m k)
  unfolding delete
  Entries-delete [] k h = tt
  Entries-delete ((j, w) ∷ m) k h = ground (arith, Entries-delete m k h.1)

  pub Entries-delete_first : (m : JsMap K V) → Entries P m → Entries P (delete_first m)
  unfolding delete_first
  Entries-delete_first [] h = tt
  Entries-delete_first ((j, w) ∷ m) h = Entries-delete ((j, w) ∷ m) j h

  pub Entries-set : (m : JsMap K V) (k : K) (v : V) → Entries P m → P k v → Entries P (set m k v)
  unfolding set
  Entries-set [] k v h p = (p, tt)
  Entries-set ((j, w) ∷ m) k v h p = elim (Bool-cases (j == k)) [
    | inl same ↦
        let keys : k ≡ j = sym ((e.beq_iff j k).0 same) in rw same (subst (λ i. P i v) keys p, h.1)
    | inr other ↦ rw other (h.0, Entries-set m k v h.1 p)
  ]
