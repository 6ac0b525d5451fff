-- ===== src/Base/Predicates.antt =====
-- A predicate on every value of a map.
use mathlib.Core.Bool.{Bool}
use mathlib.Core.List.{[], ◌∷◌}
use mathlib.Core.Option.{some}
use mathlib.Core.Path.{◌≡◌}
use native.Mathlib.Omega.{arith}
use dht_crawler.Base.Keys.{Key}
use dht_crawler.Base.Maps.{StdMap, lookup, insert, erase}
use dht_crawler.Base.Sweep.{prune}

abbrev pub Values {ℓ κ} : {K V : Type ℓ} → (V → Type κ) → StdMap K V → Type κ
Values P [] = Unit
Values P ((k, v) ∷ m) = P v × Values P m

module _ {ℓ κ} {K V : Type ℓ} ⦃e : Key K⦄ (P : V → Type κ) where
  pub Values-lookup : (k : K) (v : V) (m : StdMap K V) → Values P m → lookup k m ≡ some v → P v
  unfolding lookup
  Values-lookup k v [] a h = absurd cc
  Values-lookup k v ((j, w) ∷ m) a h = ground (arith, Values-lookup k v m a.1)

  pub Values-insert : (k : K) (v : V) (m : StdMap K V) → P v → Values P m → Values P (insert k v m)
  unfolding insert
  Values-insert k v [] p a = (p, tt)
  Values-insert k v ((j, w) ∷ m) p a = ground (arith, Values-insert k v m p a.1)

  pub Values-prune : (test : V → Bool) (m : StdMap K V) → Values P m → Values P (prune test m)
  unfolding prune
  Values-prune test [] a = tt
  Values-prune test ((k, v) ∷ m) a = ground (arith, Values-prune test m a.1)

  pub Values-erase : (k : K) (m : StdMap K V) → Values P m → Values P (erase k m)
  unfolding erase
  Values-erase k [] a = tt
  Values-erase k ((j, w) ∷ m) a = ground (arith, Values-erase k m a.1)

pub Values-impl {ℓ κ} :
    {K V : Type ℓ} (P Q : V → Type κ)
    → ((v : V) → P v → Q v)
    → (m : StdMap K V) → Values P m
    → Values Q m
Values-impl P Q f [] a = tt
Values-impl P Q f ((k, v) ∷ m) a = (f v a.0, Values-impl P Q f m a.1)
