-- ===== src/HashFormat.antt =====
-- convert_hash_to_hex of src/enhanced_metadata_manager.hpp: an info-hash in hex, base32 or binary
-- form as 40 hex digits, or the empty string. A byte is a number below 256; isxdigit and toupper
-- are those of the C locale.
pub mod Digits
pub mod Base32
pub mod Format
use Prim.Native.Nat.{bit_or}
use dht_crawler.Base.{
  ℕ, suc, ◌+◌, ◌-◌, ◌/◌, ◌%◌, ◌^◌, Bool, true, false, ◌&&◌, ◌||◌, Option, none, some, List, [], ◌∷◌,
  ◌++◌, Bytes, bytes, length, ltb, leb, ◌==◌, if◌then◌else◌,
}

-- std::isxdigit.
unfoldable pub is_xdigit : ℕ → Bool
is_xdigit c = leb b'0' c && leb c b'9' || leb b'A' c && leb c b'F' || leb b'a' c && leb c b'f'

-- The loop over a 40-byte hash: no byte fails isxdigit.
unfoldable pub all_xdigit : Bytes → Bool
all_xdigit [] = true
all_xdigit (c ∷ cs) = is_xdigit c && all_xdigit cs

-- std::toupper.
unfoldable pub to_upper : ℕ → ℕ
to_upper c = if leb b'a' c && leb c b'z' then c - 32 else c

abbrev pub base32_chars : Bytes
base32_chars = bytes "ABCDEFGHIJKLMNOPQRSTUVWXYZ234567"

-- string.find(c) from index i; none is npos.
unfoldable pub find_from : ℕ → Bytes → ℕ → Option ℕ
find_from i [] c = none
find_from i (x ∷ xs) c = if x == c then some i else find_from (suc i) xs c

-- ((pos >> i) & 1) ? '1' : '0'.
unfoldable pub bit_char : ℕ → ℕ → ℕ
bit_char p i = if p / 2 ^ i % 2 == 1 then b'1' else b'0'

-- for (int i = 4; i >= 0; i--) binary += ...
unfoldable pub five_bits : ℕ → Bytes
unfolding bit_char
five_bits p = bit_char p 4 ∷ bit_char p 3 ∷ bit_char p 2 ∷ bit_char p 1 ∷ bit_char p 0 ∷ []

-- The loop that builds `binary`; none is the early return of "".
unfoldable pub base32_bits : Bytes → Option Bytes
unfolding find_from to_upper
base32_bits [] = some []
base32_bits (c ∷ cs) =
    let rest = base32_bits cs in
    elim (find_from 0 base32_chars (to_upper c)) [
      | none ↦ none
      | some p ↦ elim rest [ none ↦ none | some bs ↦ some (five_bits p ++ bs) ]
    ]

-- if (nibble[j] == '1') value |= (1 << (3 - j)), for j = 0 .. 3.
unfoldable pub set_bit : ℕ → ℕ → ℕ → ℕ
set_bit c k v = if c == b'1' then bit_or v k else v

unfoldable pub nibble_value : ℕ → ℕ → ℕ → ℕ → ℕ
unfolding set_bit
nibble_value a b c d = set_bit d 1 (set_bit c 2 (set_bit b 4 (set_bit a 8 0)))

-- "0123456789abcdef"[value].
unfoldable pub hex_char : ℕ → ℕ
hex_char v = if ltb v 10 then b'0' + v else b'a' + (v - 10)

-- The loop over `binary` in steps of 4. Its length is 160 where the code calls it, so a last
-- short group does not arise.
unfoldable pub bits_to_hex : Bytes → Bytes
unfolding nibble_value
bits_to_hex (a ∷ b ∷ c ∷ d ∷ r) = hex_char (nibble_value a b c d) ∷ bits_to_hex r
bits_to_hex _ = []

-- The loop of snprintf(hex, sizeof(hex), "%02x", c).
unfoldable pub bytes_to_hex : Bytes → Bytes
bytes_to_hex [] = []
bytes_to_hex (c ∷ cs) = hex_char (c / 16 % 16) ∷ hex_char (c % 16) ∷ bytes_to_hex cs

-- `result` of the base32 branch.
unfoldable pub base32_to_hex : Bytes → Bytes
unfolding base32_bits bits_to_hex
base32_to_hex hash = elim (base32_bits hash) [ none ↦ [] | some bs ↦ bits_to_hex bs ]

unfoldable pub convert_hash_to_hex : Bytes → Bytes
convert_hash_to_hex hash =
    if length hash == 40 && all_xdigit hash
    then hash
    else if length hash == 32
    then base32_to_hex hash
    else if length hash == 20
    then bytes_to_hex hash
    else []
