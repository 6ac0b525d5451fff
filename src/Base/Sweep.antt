-- ===== src/Base/Sweep.antt =====
-- std::map in key order, and the loops that walk over one and erase or move its entries.
use mathlib.Core.Bool.{Bool, true, false}
use mathlib.Core.List.{List, [], ◌∷◌}
use mathlib.Core.Logic.{inl, inr}
use mathlib.Core.Option.{Option, none, some}
use mathlib.Core.Path.{◌≡◌, refl, sym, subst}
use native.Mathlib.Omega.{arith}
use dht_crawler.Base.Tests.{Bool-cases}
use dht_crawler.Base.Keys.{Key}
use dht_crawler.Base.Maps.{StdMap, lookup, insert, erase, lookup-insert}

-- A lookup after the loop.
abbrev pub unless_passes {ℓ} : {V : Type ℓ} → (V → Bool) → Option V → Option V
unless_passes test none = none
unless_passes test (some v) = elim (test v) [ true ↦ none | false ↦ some v ]

-- What the other map has for a key: the moved entry, if there is one.
abbrev pub if_passes {ℓ} : {V : Type ℓ} → (V → Bool) → (V → V) → Option V → Option V → Option V
if_passes test f none old = old
if_passes test f (some v) old = elim (test v) [ true ↦ some (f v) | false ↦ old ]

module _ {ℓ} {K V : Type ℓ} ⦃e : Key K⦄ where
  -- Every key is above `j`.
  abbrev pub Above : K → StdMap K V → Type 0
  Above j [] = Unit
  Above j ((k, v) ∷ m) = (e.lt j k ≡ true) × Above j m

  -- The keys rise.
  abbrev pub Sorted : StdMap K V → Type 0
  Sorted [] = Unit
  Sorted ((k, v) ∷ m) = Above k m × Sorted m

  Above-lower : (i j : K) (m : StdMap K V) → e.lt i j ≡ true → Above j m → Above i m
  Above-lower i j [] h a = tt
  Above-lower i j ((k, v) ∷ m) h a = (e.trans i j k h a.0, Above-lower i j m h a.1)

  pub lookup-Above : (k : K) (m : StdMap K V) → Above k m → lookup k m ≡ none
  unfolding lookup
  lookup-Above k [] a = refl
  lookup-Above k ((j, v) ∷ m) a =
      elim (e.dec j k) as (λ d. elim d [ yes _ ↦ some v | no _ ↦ lookup k m ] ≡ none) [
        | yes p ↦ absurd (ground (arith, e.irrefl k, a.0))
        | no _ ↦ lookup-Above k m a.1
      ]

  Above-insert :
      (j k : K) (v : V) (m : StdMap K V) → e.lt j k ≡ true → Above j m → Above j (insert k v m)
  unfolding insert
  Above-insert j k v [] h a = (h, tt)
  Above-insert j k v ((i, w) ∷ m) h a = ground (arith, Above-insert j k v m h a.1)

  pub Sorted-insert : (k : K) (v : V) (m : StdMap K V) → Sorted m → Sorted (insert k v m)
  unfolding insert
  Sorted-insert k v [] s = (tt, tt)
  Sorted-insert k v ((j, w) ∷ m) s =
      let rest = Sorted-insert k v m s.1 in
      elim (e.dec j k)
        as (λ d. Sorted (elim d [
          | yes _ ↦ (k, v) ∷ m
          | no _ ↦ elim (e.lt k j) [ true ↦ (k, v) ∷ (j, w) ∷ m | false ↦ (j, w) ∷ insert k v m ]
        ])) [
          | yes p ↦ (subst (λ x. Above x m) p s.0, s.1)
          | no n ↦ elim (Bool-cases (e.lt k j)) [
            | inl h ↦ rw h ((h, Above-lower k j m h s.0), s)
            | inr h ↦ rw h (Above-insert j k v m (e.total k j (λ q. n (sym q)) h) s.0, rest)
          ]
        ]

  Above-erase : (j k : K) (m : StdMap K V) → Above j m → Above j (erase k m)
  unfolding erase
  Above-erase j k [] a = tt
  Above-erase j k ((i, w) ∷ m) a = ground (arith, Above-erase j k m a.1)

  pub Sorted-erase : (k : K) (m : StdMap K V) → Sorted m → Sorted (erase k m)
  unfolding erase
  Sorted-erase k [] s = tt
  Sorted-erase k ((j, w) ∷ m) s = ground (arith, Sorted-erase k m s.1, Above-erase j k m s.0)

  -- The loop that erases the entries that pass a test.
  unfoldable pub prune : (V → Bool) → StdMap K V → StdMap K V
  prune test [] = []
  prune test ((k, v) ∷ m) = elim (test v) [ true ↦ prune test m | false ↦ (k, v) ∷ prune test m ]

  Above-prune : (test : V → Bool) (j : K) (m : StdMap K V) → Above j m → Above j (prune test m)
  unfolding prune
  Above-prune test j [] a = tt
  Above-prune test j ((k, v) ∷ m) a = ground (arith, Above-prune test j m a.1)

  pub Sorted-prune : (test : V → Bool) (m : StdMap K V) → Sorted m → Sorted (prune test m)
  unfolding prune
  Sorted-prune test [] s = tt
  Sorted-prune test ((k, v) ∷ m) s =
      ground (arith, Sorted-prune test m s.1, Above-prune test k m s.0)

  pub lookup-prune :
      (test : V → Bool) (q : K) (m : StdMap K V)
      → Sorted m
      → lookup q (prune test m) ≡ unless_passes test (lookup q m)
  unfolding lookup prune
  lookup-prune test q [] s = refl
  lookup-prune test q ((k, v) ∷ m) s = elim (e.dec k q) [
    | yes p ↦
        let gone : lookup q m ≡ none = subst (λ x. lookup x m ≡ none) p (lookup-Above k m s.0) in
        ground (arith, lookup-prune test q m s.1, gone)
    | no n ↦ ground (arith, lookup-prune test q m s.1)
  ]

  -- The loop that moves the entries that pass a test, changed by `f`, to another map. Its result is
  -- the map that is left and the other map.
  unfoldable pub move : (V → Bool) → (V → V) → StdMap K V → StdMap K V → StdMap K V × StdMap K V
  move test f [] to = ([], to)
  move test f ((k, v) ∷ m) to =
      let (kept, to') = move test f m (elim (test v) [ true ↦ insert k (f v) to | false ↦ to ]) in
      (elim (test v) [ true ↦ kept | false ↦ (k, v) ∷ kept ], to')

  pub move-prune :
      (test : V → Bool) (f : V → V) (m to : StdMap K V) → (move test f m to).0 ≡ prune test m
  unfolding move prune
  move-prune test f [] to = refl
  move-prune test f ((k, v) ∷ m) to =
      ground (arith, move-prune test f m (elim (test v) [ true ↦ insert k (f v) to | false ↦ to ]))

  pub Sorted-move :
      (test : V → Bool) (f : V → V) (m to : StdMap K V) → Sorted to → Sorted (move test f m to).1
  unfolding move
  Sorted-move test f [] to s = s
  Sorted-move test f ((k, v) ∷ m) to s = elim (Bool-cases (test v)) [
    | inl b ↦ rw b (Sorted-move test f m (insert k (f v) to) (Sorted-insert k (f v) to s))
    | inr b ↦ rw b (Sorted-move test f m to s)
  ]

  pub lookup-move :
      (test : V → Bool) (f : V → V) (q : K) (m to : StdMap K V)
      → Sorted m
      → lookup q (move test f m to).1 ≡ if_passes test f (lookup q m) (lookup q to)
  unfolding lookup move
  lookup-move test f q [] to s = refl
  lookup-move test f q ((k, v) ∷ m) to s = elim (Bool-cases (test v)) [
    | inl b ↦ elim (e.dec k q) [
      | yes p ↦
          let gone : lookup q m ≡ none = subst (λ x. lookup x m ≡ none) p (lookup-Above k m s.0) in
          rw b (
            ground (
              arith,
              lookup-move test f q m (insert k (f v) to) s.1,
              lookup-insert k q (f v) to,
              gone,
            ))
      | no n ↦ rw b (
          ground
            (arith, lookup-move test f q m (insert k (f v) to) s.1, lookup-insert k q (f v) to))
    ]
    | inr b ↦ elim (e.dec k q) [
      | yes p ↦
          let gone : lookup q m ≡ none = subst (λ x. lookup x m ≡ none) p (lookup-Above k m s.0) in
          rw b (ground (arith, lookup-move test f q m to s.1, gone))
      | no n ↦ rw b (ground (arith, lookup-move test f q m to s.1))
    ]
  ]

  -- The keys, in order.
  unfoldable pub keys : StdMap K V → List K
  keys [] = []
  keys ((k, v) ∷ m) = k ∷ keys m
