-- ===== src/Prelude/Map.antt =====
-- Go maps as association lists. A write replaces the entry of its key, so no key occurs twice.
use mathlib.Core.Path.{◌≡◌, refl, ap}
use mathlib.Core.Bool.{Bool}
use mathlib.Core.Option.{Option, none, some}
use mathlib.Core.List.{List, [], ◌∷◌}
use native.Mathlib.Omega.{arith}
use dockward.Prelude.Tests.{if◌then◌else◌, is_some}
use dockward.Prelude.Lists.{any_of}
use dockward.Prelude.Classes.{Eq, ◌==◌}

abbrev pub Map {ℓ κ} : Type ℓ → Type κ → Type (ℓ ⊔ κ)
Map K V = List (K × V)

module _ {ℓ κ} {K : Type ℓ} ⦃e : Eq K⦄ {V : Type κ} where
  unfoldable pub lookup : K → Map K V → Option V
  lookup k [] = none
  lookup k ((j, v) ∷ m) = if j == k then some v else lookup k m

  unfoldable pub insert : K → V → Map K V → Map K V
  insert k v [] = (k, v) ∷ []
  insert k v ((j, w) ∷ m) = if j == k then (k, v) ∷ m else (j, w) ∷ insert k v m

  unfoldable pub delete : K → Map K V → Map K V
  delete k [] = []
  delete k ((j, w) ∷ m) = let rest = delete k m in if j == k then rest else (j, w) ∷ rest

  -- `for k := range m { if !keep(k) { delete(m, k) } }`
  unfoldable pub retain : (K → Bool) → Map K V → Map K V
  retain keep [] = []
  retain keep ((j, w) ∷ m) = let rest = retain keep m in if keep j then (j, w) ∷ rest else rest

  abbrev pub has : K → Map K V → Bool
  has k m = is_some (lookup k m)

  pub lookup-insert :
      (j k : K) (v : V) (m : Map K V)
      → lookup j (insert k v m) ≡ (if k == j then some v else lookup j m)
  unfolding lookup insert
  lookup-insert j k v [] = refl
  lookup-insert j k v ((i, w) ∷ m) =
      ground (arith, e.beq_iff k j, e.beq_iff i k, e.beq_iff i j, lookup-insert j k v m)

  pub lookup-delete :
      (j k : K) (m : Map K V) → lookup j (delete k m) ≡ (if k == j then none else lookup j m)
  unfolding lookup delete
  lookup-delete j k [] = ground arith
  lookup-delete j k ((i, w) ∷ m) =
      ground (arith, e.beq_iff k j, e.beq_iff i k, e.beq_iff i j, lookup-delete j k m)

  pub lookup-retain :
      (j : K) (keep : K → Bool) (m : Map K V)
      → lookup j (retain keep m) ≡ (if keep j then lookup j m else none)
  unfolding lookup retain
  lookup-retain j keep [] = ground arith
  lookup-retain j keep ((i, w) ∷ m) = ground (arith, e.beq_iff i j, ap keep, lookup-retain j keep m)

module _ {ℓ κ} {K : Type ℓ} ⦃e : Eq K⦄ {V : Type κ} where
  pub delete_idem : (k : K) (m : Map K V) → delete k (delete k m) ≡ delete k m
  unfolding delete
  delete_idem k [] = refl
  delete_idem k ((j, w) ∷ m) = ground (arith, delete_idem k m)

  pub delete_absent : (k : K) (m : Map K V) → lookup k m ≡ none → delete k m ≡ m
  unfolding lookup delete
  delete_absent k [] h = refl
  delete_absent k ((j, w) ∷ m) h = ground (arith, delete_absent k m)

module _ {ℓ κ} {K : Type ℓ} ⦃e : Eq K⦄ {V : Type κ} where
  -- The keys, which `for k := range m` visits in any order.
  abbrev pub keys : Map K V → List K
  keys [] = []
  keys ((k, _) ∷ m) = k ∷ keys m

  pub any_of-keys : (k : K) (m : Map K V) → any_of (λ j. j == k) (keys m) ≡ has k m
  unfolding lookup
  any_of-keys k [] = refl
  any_of-keys k ((j, v) ∷ m) = ground (arith, any_of-keys k m)
