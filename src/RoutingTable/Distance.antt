-- ===== src/RoutingTable/Distance.antt =====
-- Distances and bucket indices against the bits of the ids.
use dht_crawler.Base.{
  ℕ, zero, suc, ◌+◌, ◌*◌, ◌/◌, ◌%◌, ◌^◌, ◌<◌, ◌≤◌, ◌≡◌, ◌≢◌, refl, All, ℕ_discrete, pos, [], ◌∷◌,
  true, Bytes, length, ◌==◌, if◌then◌else◌, arith,
}
use dht_crawler.RoutingTable.{
  bit_xor, xor_bytes, calculate_xor_distance, count_leading_zeros, first_nonzero,
  calculate_bucket_index, to_char, less_distance, is_node_closer,
}

-- The bits that two numbers of w bits share, from the highest on.
unfoldable pub shared_bits : ℕ → ℕ → ℕ → ℕ
shared_bits zero a b = 0
shared_bits (suc w) a b =
    let rest = shared_bits w a b in if a / 2 ^ w % 2 == b / 2 ^ w % 2 then 1 + rest else 0

-- The bits that two ids share, from the first byte on.
unfoldable pub shared_prefix : Bytes → Bytes → ℕ
shared_prefix [] bs = 0
shared_prefix (a ∷ xs) [] = 0
shared_prefix (a ∷ xs) (b ∷ ys) =
    let rest = shared_prefix xs ys in if shared_bits 8 a b == 8 then 8 + rest else shared_bits 8 a b

bit_xor_lt : (w a b : ℕ) → bit_xor w a b < 2 ^ w
unfolding bit_xor
bit_xor_lt zero a b = omega arith
bit_xor_lt (suc w) a b = ground (arith, bit_xor_lt w a b)

leading_zeros-xor : (w a b : ℕ) → count_leading_zeros w (bit_xor w a b) ≡ shared_bits w a b
unfolding count_leading_zeros bit_xor shared_bits
leading_zeros-xor zero a b = refl
leading_zeros-xor (suc w) a b = ground (arith, leading_zeros-xor w a b, bit_xor_lt w a b)

pow_mono : (w k : ℕ) → 2 ^ w ≤ 2 ^ (w + k)
pow_mono w zero = let e : w + 0 ≡ w = omega arith in rw e (omega arith)
pow_mono w (suc k) =
    let e : w + suc k ≡ suc (w + k) = omega arith in rw e (omega (arith, pow_mono w k))

-- The zeros above the w bits of a number.
leading_zeros_pad :
    (w k x : ℕ) → x < 2 ^ w → count_leading_zeros (w + k) x ≡ k + count_leading_zeros w x
unfolding count_leading_zeros
leading_zeros_pad w zero x h = let e : w + 0 ≡ w = omega arith in rw e (omega arith)
leading_zeros_pad w (suc k) x h =
    let e : w + suc k ≡ suc (w + k) = omega arith in
    rw e (ground (arith, leading_zeros_pad w k x h, pow_mono w k, h))

-- A number that is not 0 has a bit.
leading_zeros_lt : (w x : ℕ) → x ≢ 0 → x < 2 ^ w → count_leading_zeros w x < w
unfolding count_leading_zeros
leading_zeros_lt zero x n h = absurd (ground (arith, n))
leading_zeros_lt (suc w) x n h = ground (arith, n, leading_zeros_lt w x n)

xor_zero_step :
    (w a b : ℕ) → bit_xor (suc w) a b ≡ 0 → (a / 2 ^ w % 2 ≡ b / 2 ^ w % 2) × (bit_xor w a b ≡ 0)
unfolding bit_xor
xor_zero_step w a b h = ground (arith, bit_xor_lt w a b)

-- Bytes at distance 0 are equal.
xor_zero_equal : (a b : ℕ) → a < 256 → b < 256 → bit_xor 8 a b ≡ 0 → a ≡ b
xor_zero_equal a b h k e =
    let (b7, e7) = xor_zero_step 7 a b e in
    let (b6, e6) = xor_zero_step 6 a b e7 in
    let (b5, e5) = xor_zero_step 5 a b e6 in
    let (b4, e4) = xor_zero_step 4 a b e5 in
    let (b3, e3) = xor_zero_step 3 a b e4 in
    let (b2, e2) = xor_zero_step 2 a b e3 in
    let (b1, e1) = xor_zero_step 1 a b e2 in
    let (b0, e0) = xor_zero_step 0 a b e1 in omega (arith, b7, b6, b5, b4, b3, b2, b1, b0)

-- The bytes of an id.
abbrev pub IsBytes : Bytes → Type 0
IsBytes = All (λ c. c < 256)

-- One byte: its zeros in 32 bits are 24 and the bits that the bytes share.
pub zeros_of_byte : (a b : ℕ) → count_leading_zeros 32 (bit_xor 8 a b) ≡ 24 + shared_bits 8 a b
zeros_of_byte a b =
    omega
      (arith, leading_zeros_pad 8 24 (bit_xor 8 a b) (bit_xor_lt 8 a b), leading_zeros-xor 8 a b)

shared_bits_same : (a b : ℕ) → bit_xor 8 a b ≡ 0 → shared_bits 8 a b ≡ 8
unfolding count_leading_zeros
shared_bits_same a b e =
    let zeros : count_leading_zeros 8 (bit_xor 8 a b) ≡ 8 = rw e refl in
    omega (arith, zeros, leading_zeros-xor 8 a b)

shared_bits_differ : (a b : ℕ) → bit_xor 8 a b ≢ 0 → shared_bits 8 a b < 8
shared_bits_differ a b d =
    omega (arith, leading_zeros_lt 8 (bit_xor 8 a b) d (bit_xor_lt 8 a b), leading_zeros-xor 8 a b)

first_nonzero-xor :
    (i : ℕ) (xs ys : Bytes)
    → length xs ≡ length ys
    → IsBytes xs
    → IsBytes ys
    → xs ≢ ys
    → first_nonzero i (xor_bytes xs ys) ≡ pos (i * 8 + (24 + shared_prefix xs ys))
unfolding first_nonzero xor_bytes shared_prefix
first_nonzero-xor i [] [] l u v n = absurd (n refl)
first_nonzero-xor i [] (b ∷ ys) l u v n = absurd (omega (arith, l))
first_nonzero-xor i (a ∷ xs) [] l u v n = absurd (omega (arith, l))
first_nonzero-xor i (a ∷ xs) (b ∷ ys) l u v n =
    by_dec (ℕ_discrete (bit_xor 8 a b) 0)
      (λ further. first_nonzero-xor (i + 1) xs ys (omega (arith, l)) u.1 v.1 further)
  where
    by_dec :
        Dec (bit_xor 8 a b ≡ 0)
        → (xs ≢ ys
            → first_nonzero (i + 1) (xor_bytes xs ys)
              ≡ pos ((i + 1) * 8 + (24 + shared_prefix xs ys)))
        → first_nonzero i (xor_bytes (a ∷ xs) (b ∷ ys))
          ≡ pos (i * 8 + (24 + shared_prefix (a ∷ xs) (b ∷ ys)))
    by_dec (yes e) ih =
        let here : a ≡ b = xor_zero_equal a b u.0 v.0 e in
        let rest = ih (λ q. n cc) in ground (arith, e, rest, shared_bits_same a b e)
    by_dec (no d) ih = ground (arith, d, zeros_of_byte a b, shared_bits_differ a b d)

-- The bucket index of another id of our id's length is 24 and the number of bits that the ids share,
-- for __builtin_clz counts in 32 bits where the distance has bytes.
pub bucket_index-shared_prefix :
    (our id : Bytes)
    → length our ≡ length id
    → IsBytes our
    → IsBytes id
    → our ≢ id
    → calculate_bucket_index our id ≡ pos (24 + shared_prefix our id)
unfolding calculate_bucket_index calculate_xor_distance xor_bytes
bucket_index-shared_prefix [] [] l u v n = absurd (n refl)
bucket_index-shared_prefix [] (b ∷ ys) l u v n = absurd (omega (arith, l))
bucket_index-shared_prefix (a ∷ xs) [] l u v n = absurd (omega (arith, l))
bucket_index-shared_prefix (a ∷ xs) (b ∷ ys) l u v n =
    ground (arith, l, first_nonzero-xor 0 (a ∷ xs) (b ∷ ys) l u v n)

xor_top :
    (w a b : ℕ)
    → (a / 2 ^ w % 2 ≢ b / 2 ^ w % 2 → 2 ^ w ≤ bit_xor (suc w) a b)
      × (a / 2 ^ w % 2 ≡ b / 2 ^ w % 2 → bit_xor (suc w) a b < 2 ^ w)
unfolding bit_xor
xor_top w a b = (λ d. ground (arith, d), λ e. ground (arith, e, bit_xor_lt w a b))

-- isNodeCloser compares signed chars: a node whose id differs from ours in the first bit, the farthest
-- there are, counts as closer than every node whose id shares that bit with ours.
pub is_node_closer-far :
    (o a b : ℕ) (os xs ys : Bytes)
    → length os ≡ length xs
    → length os ≡ length ys
    → o / 128 % 2 ≢ a / 128 % 2
    → o / 128 % 2 ≡ b / 128 % 2
    → is_node_closer (o ∷ os) (a ∷ xs) (b ∷ ys) ≡ true
unfolding is_node_closer calculate_xor_distance xor_bytes less_distance to_char
is_node_closer-far o a b os xs ys l k far near =
    ground (arith, l, k, (xor_top 7 o a).0 far, (xor_top 7 o b).1 near, bit_xor_lt 8 o a)
