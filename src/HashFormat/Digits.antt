-- ===== src/HashFormat/Digits.antt =====
-- What a string of digits stands for, and the digits that convert_hash_to_hex writes.
use dht_crawler.Base.{
  ℕ, ◌+◌, ◌-◌, ◌*◌, ◌/◌, ◌%◌, ◌<◌, true, ◌≡◌, refl, [], ◌∷◌, Bytes, length, All, arith, leb, ◌==◌,
  if◌then◌else◌,
}
use dht_crawler.HashFormat.{is_xdigit, all_xdigit, hex_char, bytes_to_hex, nibble_value}

-- The value of one hex digit, of either case.
abbrev pub hex_value : ℕ → ℕ
hex_value c = if leb c b'9' then c - b'0' else if leb c b'F' then c - 55 else c - 87

-- The number that hex digits write, most significant first, after a number already read.
unfoldable pub hex_number : ℕ → Bytes → ℕ
hex_number acc [] = acc
hex_number acc (c ∷ cs) = hex_number (acc * 16 + hex_value c) cs

-- The bytes that pairs of hex digits write.
unfoldable pub unhex : Bytes → Bytes
unhex (h ∷ l ∷ cs) = (hex_value h * 16 + hex_value l) ∷ unhex cs
unhex _ = []

pub hex_char-is_xdigit : (v : ℕ) → v < 16 → is_xdigit (hex_char v) ≡ true
unfolding is_xdigit hex_char
hex_char-is_xdigit v h = ground arith

pub hex_value-hex_char : (v : ℕ) → v < 16 → hex_value (hex_char v) ≡ v
unfolding hex_char
hex_value-hex_char v h = ground arith

pub unhex-bytes_to_hex : (cs : Bytes) → All (λ c. c < 256) cs → unhex (bytes_to_hex cs) ≡ cs
unfolding unhex bytes_to_hex
unhex-bytes_to_hex [] h = refl
unhex-bytes_to_hex (c ∷ cs) h = ground (
  arith,
  hex_value-hex_char (c / 16 % 16) (omega arith),
  hex_value-hex_char (c % 16) (omega arith),
  unhex-bytes_to_hex cs h.1,
)

pub bytes_to_hex-all_xdigit : (cs : Bytes) → all_xdigit (bytes_to_hex cs) ≡ true
unfolding all_xdigit bytes_to_hex
bytes_to_hex-all_xdigit [] = refl
bytes_to_hex-all_xdigit (c ∷ cs) = ground (
  arith,
  hex_char-is_xdigit (c / 16 % 16) (omega arith),
  hex_char-is_xdigit (c % 16) (omega arith),
  bytes_to_hex-all_xdigit cs,
)

pub length-bytes_to_hex : (cs : Bytes) → length (bytes_to_hex cs) ≡ 2 * length cs
unfolding bytes_to_hex
length-bytes_to_hex [] = omega arith
length-bytes_to_hex (c ∷ cs) = omega (arith, length-bytes_to_hex cs)

-- The value of one character of `binary`.
abbrev pub bit_value : ℕ → ℕ
bit_value c = if c == b'1' then 1 else 0

pub nibble_value_lem :
    (a b c d : ℕ)
    → nibble_value a b c d ≡ 8 * bit_value a + 4 * bit_value b + 2 * bit_value c + bit_value d
unfolding nibble_value
nibble_value_lem a b c d = ground arith
