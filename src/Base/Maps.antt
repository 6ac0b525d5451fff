-- ===== src/Base/Maps.antt =====
-- std::map as an association list in key order.
use Prim.Native.Nat.{suc, ◌≤◌}
use mathlib.Core.Bool.{true, false}
use mathlib.Core.List.{List, [], ◌∷◌}
use mathlib.Core.Logic.{ite}
use mathlib.Core.Option.{Option, none, some}
use mathlib.Core.Path.{◌≡◌, refl}
use native.Mathlib.Omega.{arith}
use dht_crawler.Base.Lists.{length}
use dht_crawler.Base.Keys.{Key}

abbrev pub StdMap {ℓ κ} : Type ℓ → Type κ → Type (ℓ ⊔ κ)
StdMap K V = List (K × V)

module _ {ℓ κ} {K : Type ℓ} {V : Type κ} ⦃e : Key K⦄ where
  -- map.find(k).
  unfoldable pub lookup : K → StdMap K V → Option V
  lookup k [] = none
  lookup k ((j, v) ∷ m) = elim (e.dec j k) [ yes _ ↦ some v | no _ ↦ lookup k m ]

  -- map[k] = v.
  unfoldable pub insert : K → V → StdMap K V → StdMap K V
  insert k v [] = (k, v) ∷ []
  insert k v ((j, w) ∷ m) = elim (e.dec j k) [
    | yes _ ↦ (k, v) ∷ m
    | no _ ↦ elim (e.lt k j) [ true ↦ (k, v) ∷ (j, w) ∷ m | false ↦ (j, w) ∷ insert k v m ]
  ]

  -- map.erase(k).
  unfoldable pub erase : K → StdMap K V → StdMap K V
  erase k [] = []
  erase k ((j, v) ∷ m) = elim (e.dec j k) [ yes _ ↦ erase k m | no _ ↦ (j, v) ∷ erase k m ]

  pub lookup-insert :
      (k q : K) (v : V) (m : StdMap K V)
      → lookup q (insert k v m) ≡ ite (e.dec k q) (some v) (lookup q m)
  unfolding lookup insert
  lookup-insert k q v [] = ground arith
  lookup-insert k q v ((j, w) ∷ m) = ground (arith, lookup-insert k q v m)

  pub lookup-erase :
      (k q : K) (m : StdMap K V) → lookup q (erase k m) ≡ ite (e.dec k q) none (lookup q m)
  unfolding lookup erase
  lookup-erase k q [] = ground arith
  lookup-erase k q ((j, w) ∷ m) = ground (arith, lookup-erase k q m)

  pub length-insert_new :
      (k : K) (v : V) (m : StdMap K V) → lookup k m ≡ none → length (insert k v m) ≡ suc (length m)
  unfolding lookup insert
  length-insert_new k v [] h = refl
  length-insert_new k v ((j, w) ∷ m) h = ground (arith, length-insert_new k v m)

  pub length-insert-le : (k : K) (v : V) (m : StdMap K V) → length (insert k v m) ≤ suc (length m)
  unfolding insert
  length-insert-le k v [] = omega arith
  length-insert-le k v ((j, w) ∷ m) = ground (arith, length-insert-le k v m)

  pub length-erase-le : (k : K) (m : StdMap K V) → length (erase k m) ≤ length m
  unfolding erase
  length-erase-le k [] = omega arith
  length-erase-le k ((j, w) ∷ m) = ground (arith, length-erase-le k m)
