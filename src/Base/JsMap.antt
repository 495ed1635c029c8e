-- ===== src/Base/JsMap.antt =====
-- The Map of JavaScript: entries in order of insertion; `set` keeps the place of a key that is there.
pub mod Entries
use Prim.Native.Nat.{ℕ, suc, ◌+◌, ◌≤◌}
use mathlib.Core.Path.{◌≡◌, refl}
use mathlib.Core.List.{List, [], ◌∷◌}
use mathlib.Core.Option.{Option, none, some}
use native.Mathlib.Omega.{arith}
use foreseer.Base.Tests.{Eq, ◌==◌, if◌then◌else◌}
use foreseer.Base.Lists.{length}

abbrev pub JsMap {ℓ κ} : Type ℓ → Type κ → Type (ℓ ⊔ κ)
JsMap K V = List (K × V)

module _ {ℓ κ} {K : Type ℓ} {V : Type κ} ⦃e : Eq K⦄ where
  unfoldable pub get : JsMap K V → K → Option V
  get [] k = none
  get ((j, v) ∷ m) k = let rest = get m k in if j == k then some v else rest

  unfoldable pub set : JsMap K V → K → V → JsMap K V
  set [] k v = (k, v) ∷ []
  set ((j, w) ∷ m) k v = let rest = set m k v in if j == k then (j, v) ∷ m else (j, w) ∷ rest

  unfoldable pub delete : JsMap K V → K → JsMap K V
  delete [] k = []
  delete ((j, w) ∷ m) k = let rest = delete m k in if j == k then rest else (j, w) ∷ rest

  -- `map.delete(map.keys().next().value!)`.
  unfoldable pub delete_first : JsMap K V → JsMap K V
  unfolding delete
  delete_first [] = []
  delete_first ((j, w) ∷ m) = delete ((j, w) ∷ m) j

  pub get-set :
      (m : JsMap K V) (k j : K) (v : V) → get (set m k v) j ≡ (if k == j then some v else get m j)
  unfolding get set
  get-set [] k j v = refl
  get-set ((i, w) ∷ m) k j v =
      ground (arith, e.beq_iff k j, e.beq_iff i k, e.beq_iff i j, get-set m k j v)

  pub get-delete :
      (m : JsMap K V) (k j : K) → get (delete m k) j ≡ (if k == j then none else get m j)
  unfolding get delete
  get-delete [] k j = ground arith
  get-delete ((i, w) ∷ m) k j =
      ground (arith, e.beq_iff k j, e.beq_iff i k, e.beq_iff i j, get-delete m k j)

  pub length-delete-le : (m : JsMap K V) (k : K) → length (delete m k) ≤ length m
  unfolding delete
  length-delete-le [] k = omega arith
  length-delete-le ((i, w) ∷ m) k = ground (arith, length-delete-le m k)

  pub length-set-le : (m : JsMap K V) (k : K) (v : V) → length (set m k v) ≤ length m + 1
  unfolding set
  length-set-le [] k v = omega arith
  length-set-le ((i, w) ∷ m) k v = ground (arith, length-set-le m k v)

  -- A map that is not empty loses an entry.
  pub length-delete_first-le :
      (m : JsMap K V) (n : ℕ) → length m ≤ suc n → length (delete_first m) ≤ n
  unfolding delete_first
  length-delete_first-le [] n h = omega arith
  length-delete_first-le ((i, w) ∷ m) n h =
      ground (arith, (e.beq_iff i i).1 refl, length-delete-le m i)

  pub length-delete-lt :
      (m : JsMap K V) (k : K) (v : V) → get m k ≡ some v → length (delete m k) + 1 ≤ length m
  unfolding get delete
  length-delete-lt [] k v h = absurd (ground arith)
  length-delete-lt ((i, w) ∷ m) k v h = ground (arith, length-delete-lt m k v, length-delete-le m k)

  -- A key that is there keeps its place.
  pub length-set_known :
      (m : JsMap K V) (k : K) (old v : V) → get m k ≡ some old → length (set m k v) ≡ length m
  unfolding get set
  length-set_known [] k old v h = absurd (ground arith)
  length-set_known ((i, w) ∷ m) k old v h = ground (arith, length-set_known m k old v)
