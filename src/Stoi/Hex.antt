-- ===== src/Stoi/Hex.antt =====
-- std::stoi of a text in base 16.
use dht_crawler.Base.{
  ℕ, ◌+◌, ◌-◌, ◌*◌, ◌/◌, ◌%◌, ◌<◌, ◌≡◌, refl, ℤ, pos, negsuc, [], ◌∷◌, Option, none, some, false,
  ◌&&◌, ◌||◌, Bytes, All, leb, ◌==◌, if◌then◌else◌, map, arith,
}
use dht_crawler.HashFormat.{hex_char, bytes_to_hex}
use dht_crawler.Stoi.{is_space, skip_spaces, positive, negative}

unfoldable pub hex_digit : ℕ → Option ℕ
hex_digit c =
    if leb b'0' c && leb c b'9'
    then some (c - b'0')
    else if leb b'a' c && leb c b'f'
    then some (c - b'a' + 10)
    else if leb b'A' c && leb c b'F'
    then some (c - b'A' + 10)
    else none

unfoldable pub read_hex : ℕ → Bytes → ℕ
read_hex n [] = n
read_hex n (c ∷ cs) = elim (hex_digit c) [ some d ↦ read_hex (n * 16 + d) cs | none ↦ n ]

unfoldable pub read_hex_number : Bytes → Option ℕ
read_hex_number [] = none
read_hex_number (c ∷ cs) = elim (hex_digit c) [ some d ↦ some (read_hex d cs) | none ↦ none ]

-- A prefix 0x is skipped if a digit follows.
unfoldable pub skip_prefix : Bytes → Bytes
skip_prefix (z ∷ x ∷ c ∷ cs) =
    if z == b'0' && (x == b'x' || x == b'X')
    then (elim (hex_digit c) [ some d ↦ c ∷ cs | none ↦ z ∷ x ∷ c ∷ cs ])
    else z ∷ x ∷ c ∷ cs
skip_prefix text = text

unfoldable pub signed_hex : Bytes → Option ℤ
signed_hex [] = none
signed_hex (c ∷ cs) =
    if c == b'-'
    then negative (read_hex_number (skip_prefix cs))
    else if c == b'+'
    then positive (read_hex_number (skip_prefix cs))
    else positive (read_hex_number (skip_prefix (c ∷ cs)))

unfoldable pub stoi_hex : Bytes → Option ℤ
unfolding skip_spaces signed_hex
stoi_hex text = signed_hex (skip_spaces text)

-- static_cast<unsigned char>.
unfoldable pub to_uchar : ℤ → ℕ
to_uchar (pos n) = n % 256
to_uchar (negsuc n) = 255 - n % 256

-- The loop over the pairs of digits of a hash; none: std::stoi throws.
unfoldable pub target_of : Bytes → Option Bytes
target_of (a ∷ b ∷ rest) =
    let later = target_of rest in
    elim (stoi_hex (a ∷ b ∷ [])) [
      | none ↦ none
      | some z ↦ elim later [ none ↦ none | some bs ↦ some (to_uchar z ∷ bs) ]
    ]
target_of _ = some []

hex_digit-hex_char : (v : ℕ) → v < 16 → hex_digit (hex_char v) ≡ some v
unfolding hex_digit hex_char
hex_digit-hex_char v h = ground arith

hex_char_plain :
    (v : ℕ)
    → v < 16
    → (is_space (hex_char v) ≡ false)
      × ((hex_char v == b'-') ≡ false)
      × ((hex_char v == b'+') ≡ false)
unfolding hex_char is_space
hex_char_plain v h = (ground arith, ground arith, ground arith)

stoi_hex-hex_char :
    (x y : ℕ) → x < 16 → y < 16 → stoi_hex (hex_char x ∷ hex_char y ∷ []) ≡ some (pos (x * 16 + y))
unfolding stoi_hex read_hex_number read_hex skip_prefix positive
stoi_hex-hex_char x y hx hy =
    let (space, minus, plus) = hex_char_plain x hx in
    ground (arith, space, minus, plus, hex_digit-hex_char x hx, hex_digit-hex_char y hy)

-- The target of a text in hex is what was written, byte by byte.
pub target_of-bytes_to_hex_mod :
    (bs : Bytes) → target_of (bytes_to_hex bs) ≡ some (map (λ b. b % 256) bs)
unfolding target_of bytes_to_hex to_uchar
target_of-bytes_to_hex_mod [] = refl
target_of-bytes_to_hex_mod (b ∷ bs) =
    let whole : (b / 16 % 16 * 16 + b % 16) % 256 ≡ b % 256 = omega arith in
    ground (
      arith,
      whole,
      stoi_hex-hex_char (b / 16 % 16) (b % 16) (omega arith) (omega arith),
      target_of-bytes_to_hex_mod bs,
    )

map-mod : (bs : Bytes) → All (λ b. b < 256) bs → map (λ b. b % 256) bs ≡ bs
map-mod [] a = refl
map-mod (b ∷ bs) a = let same : b % 256 ≡ b = omega (arith, a.0) in rw (same, map-mod bs a.1) refl

pub target_of-bytes_to_hex :
    (bs : Bytes) → All (λ b. b < 256) bs → target_of (bytes_to_hex bs) ≡ some bs
target_of-bytes_to_hex bs a = rw (target_of-bytes_to_hex_mod bs, map-mod bs a) refl
