-- ===== src/Base/Keys.antt =====
-- What std::map and std::set ask of a key: decidable equality and a strict order.
use Prim.Native.Nat.{ℕ}
use mathlib.Core.Bool.{Bool, true, false}
use mathlib.Core.Logic.{◌≢◌}
use mathlib.Core.Path.{◌≡◌, ap}
use native.Mathlib.Decide.{ℕ_discrete}
use native.Mathlib.Omega.{arith}
use dht_crawler.Base.Tests.{ltb}
use dht_crawler.Base.Integers.{ℤ, pos, negsuc, ltb_ℤ}
use dht_crawler.Base.Text.{Bytes, Bytes-discrete, less, less_irrefl, less_trans, less_total}

pub record Key {ℓ} (K : Type ℓ) : Type ℓ where
  pub dec : Discrete K
  pub lt : K → K → Bool
  pub irrefl : (x : K) → lt x x ≡ false
  pub trans : (x y z : K) → lt x y ≡ true → lt y z ≡ true → lt x z ≡ true
  pub total : (x y : K) → x ≢ y → lt x y ≡ false → lt y x ≡ true

pub ltb_irrefl : (x : ℕ) → ltb x x ≡ false
ltb_irrefl x = ground arith

pub ltb_trans : (x y z : ℕ) → ltb x y ≡ true → ltb y z ≡ true → ltb x z ≡ true
ltb_trans x y z p q = ground arith

pub ltb_total : (x y : ℕ) → x ≢ y → ltb x y ≡ false → ltb y x ≡ true
ltb_total x y n h = ground arith

instance abbrev pub nat_key : Key ℕ
nat_key = record {
  dec = ℕ_discrete;
  lt = ltb;
  irrefl = ltb_irrefl;
  trans = ltb_trans;
  total = ltb_total;
}

instance abbrev pub bytes_key : Key Bytes
bytes_key = record {
  dec = Bytes-discrete;
  lt = less;
  irrefl = less_irrefl;
  trans = less_trans;
  total = less_total;
}

unfoldable pub ℤ_discrete : Discrete ℤ
ℤ_discrete (pos m) (pos n) = elim (ℕ_discrete m n) [
  | yes p ↦ yes (ap pos p)
  | no d ↦ no (λ e. d cc)
]
ℤ_discrete (negsuc m) (negsuc n) = elim (ℕ_discrete m n) [
  | yes p ↦ yes (ap negsuc p)
  | no d ↦ no (λ e. d cc)
]
ℤ_discrete (pos m) (negsuc n) = no (λ e. absurd cc)
ℤ_discrete (negsuc m) (pos n) = no (λ e. absurd cc)

pub ltb_ℤ_irrefl : (x : ℤ) → ltb_ℤ x x ≡ false
ltb_ℤ_irrefl x = ground arith

pub ltb_ℤ_trans : (x y z : ℤ) → ltb_ℤ x y ≡ true → ltb_ℤ y z ≡ true → ltb_ℤ x z ≡ true
ltb_ℤ_trans x y z p q = ground arith

pub ltb_ℤ_total : (x y : ℤ) → x ≢ y → ltb_ℤ x y ≡ false → ltb_ℤ y x ≡ true
ltb_ℤ_total (pos m) (pos n) d h = ground arith
ltb_ℤ_total (negsuc m) (negsuc n) d h = ground arith
ltb_ℤ_total (pos m) (negsuc n) d h = ground arith
ltb_ℤ_total (negsuc m) (pos n) d h = ground arith

instance abbrev pub int_key : Key ℤ
int_key = record {
  dec = ℤ_discrete;
  lt = ltb_ℤ;
  irrefl = ltb_ℤ_irrefl;
  trans = ltb_ℤ_trans;
  total = ltb_ℤ_total;
}
