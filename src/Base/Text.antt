-- ===== src/Base/Text.antt =====
-- std::string as the list of its bytes, with the lexicographic order of std::less.
use Prim.Native.Nat.{ℕ}
use Prim.Native.Char.{code}
use Prim.Native.String.{String}
use mathlib.Core.Bool.{Bool, true, false}
use mathlib.Core.List.{List, [], ◌∷◌}
use mathlib.Core.Logic.{◌≢◌}
use mathlib.Core.Path.{◌≡◌, refl}
use native.Mathlib.Decide.{ℕ_discrete}
use native.Mathlib.Omega.{arith}
use dht_crawler.Base.Tests.{ltb, ◌==◌, if◌then◌else◌}

abbrev pub Bytes : Type 0
Bytes = List ℕ

-- A literal's bytes: its code points, all of them ASCII.
abbrev pub bytes : String → Bytes
bytes String.[] = []
bytes (String.◌∷◌ c s) = code c ∷ bytes s

unfoldable pub Bytes-discrete : Discrete Bytes
Bytes-discrete [] [] = yes refl
Bytes-discrete [] (y ∷ ys) = no (λ e. absurd cc)
Bytes-discrete (x ∷ xs) [] = no (λ e. absurd cc)
Bytes-discrete (x ∷ xs) (y ∷ ys) = elim (ℕ_discrete x y) [
  | no n ↦ no (λ e. n cc)
  | yes p ↦ elim (Bytes-discrete xs ys) [ no n ↦ no (λ e. n cc) | yes q ↦ yes cc ]
]

-- operator< of std::string.
unfoldable pub less : Bytes → Bytes → Bool
less [] [] = false
less [] (y ∷ ys) = true
less (x ∷ xs) [] = false
less (x ∷ xs) (y ∷ ys) = if ltb x y then true else if x == y then less xs ys else false

pub less_irrefl : (x : Bytes) → less x x ≡ false
unfolding less
less_irrefl [] = refl
less_irrefl (x ∷ xs) = ground (arith, less_irrefl xs)

pub less_trans : (x y z : Bytes) → less x y ≡ true → less y z ≡ true → less x z ≡ true
unfolding less
less_trans [] [] z p q = cc
less_trans [] (y ∷ ys) [] p q = cc
less_trans [] (y ∷ ys) (z ∷ zs) p q = ground arith
less_trans (x ∷ xs) [] z p q = cc
less_trans (x ∷ xs) (y ∷ ys) [] p q = cc
less_trans (x ∷ xs) (y ∷ ys) (z ∷ zs) p q = ground (arith, less_trans xs ys zs)

pub less_total : (x y : Bytes) → x ≢ y → less x y ≡ false → less y x ≡ true
unfolding less
less_total [] [] n h = absurd (n refl)
less_total [] (y ∷ ys) n h = cc
less_total (x ∷ xs) [] n h = refl
less_total (x ∷ xs) (y ∷ ys) n h = elim (Bytes-discrete xs ys) [
  | yes e ↦ ground arith
  | no e ↦ ground (arith, less_total xs ys e)
]
