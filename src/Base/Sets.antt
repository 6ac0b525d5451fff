-- ===== src/Base/Sets.antt =====
-- std::set as a list in order.
use Prim.Native.Nat.{suc}
use mathlib.Core.Bool.{Bool, true, false}
use mathlib.Core.List.{List, [], ◌∷◌}
use mathlib.Core.Logic.{ite}
use mathlib.Core.Path.{◌≡◌, refl}
use native.Mathlib.Omega.{arith}
use dht_crawler.Base.Lists.{length}
use dht_crawler.Base.Keys.{Key}

abbrev pub StdSet {ℓ} : Type ℓ → Type ℓ
StdSet K = List K

module _ {ℓ} {K : Type ℓ} ⦃e : Key K⦄ where
  -- set.find(k) != set.end().
  unfoldable pub contains : K → StdSet K → Bool
  contains k [] = false
  contains k (j ∷ s) = elim (e.dec j k) [ yes _ ↦ true | no _ ↦ contains k s ]

  -- set.insert(k).
  unfoldable pub add : K → StdSet K → StdSet K
  add k [] = k ∷ []
  add k (j ∷ s) = elim (e.dec j k) [
    | yes _ ↦ j ∷ s
    | no _ ↦ elim (e.lt k j) [ true ↦ k ∷ j ∷ s | false ↦ j ∷ add k s ]
  ]

  -- set.erase(k).
  unfoldable pub remove : K → StdSet K → StdSet K
  remove k [] = []
  remove k (j ∷ s) = elim (e.dec j k) [ yes _ ↦ remove k s | no _ ↦ j ∷ remove k s ]

  pub contains-add :
      (k q : K) (s : StdSet K) → contains q (add k s) ≡ ite (e.dec k q) true (contains q s)
  unfolding contains add
  contains-add k q [] = ground arith
  contains-add k q (j ∷ s) = ground (arith, contains-add k q s)

  pub contains-remove :
      (k q : K) (s : StdSet K) → contains q (remove k s) ≡ ite (e.dec k q) false (contains q s)
  unfolding contains remove
  contains-remove k q [] = ground arith
  contains-remove k q (j ∷ s) = ground (arith, contains-remove k q s)

  pub length-add_new :
      (k : K) (s : StdSet K) → contains k s ≡ false → length (add k s) ≡ suc (length s)
  unfolding contains add
  length-add_new k [] h = refl
  length-add_new k (j ∷ s) h = ground (arith, length-add_new k s)
