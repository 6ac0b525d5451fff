-- ===== src/HashFormat/Base32.antt =====
-- The base32 branch of convert_hash_to_hex: bits and digits of the same number.
use dht_crawler.Base.{
  ℕ, zero, suc, ◌+◌, ◌-◌, ◌*◌, ◌<◌, Bool, true, ◌&&◌, ◌≡◌, refl, ap, ◌∙◌, inl, inr, none, some, [],
  ◌∷◌, ◌++◌, Bytes, length, All, arith, ltb, leb, if◌then◌else◌, Bool-cases, Option-cases,
}
use dht_crawler.HashFormat.{
  all_xdigit, to_upper, find_from, base32_chars, five_bits, base32_bits, bits_to_hex, nibble_value,
}
use dht_crawler.HashFormat.Digits.{
  hex_number, bit_value, nibble_value_lem, hex_char-is_xdigit, hex_value-hex_char,
}

-- The value of a base32 digit: its place in the alphabet of RFC 4648, either case of a letter.
abbrev pub base32_value : ℕ → ℕ
base32_value c = if leb b'a' c then c - b'a' else if leb b'A' c then c - b'A' else c - 24

-- The number that base32 digits write, most significant first, after a number already read.
unfoldable pub base32_number : ℕ → Bytes → ℕ
base32_number acc [] = acc
base32_number acc (c ∷ cs) = base32_number (acc * 32 + base32_value c) cs

-- The letters and digits of base32.
abbrev pub is_base32 : ℕ → Bool
is_base32 c =
    if leb b'a' c then leb c b'z' else if leb b'A' c then leb c b'Z' else leb b'2' c && leb c b'7'

bits_number : ℕ → Bytes → ℕ
bits_number acc [] = acc
bits_number acc (b ∷ bs) = bits_number (acc * 2 + bit_value b) bs

-- The characters a, a + 1, …, n of them.
abbrev run : ℕ → ℕ → Bytes
run a zero = []
run a (suc n) = a ∷ run (suc a) n

find-run :
    (i a n c : ℕ) (r : Bytes)
    → find_from i (run a n ++ r) c
      ≡ (if leb a c && ltb c (a + n) then some (i + (c - a)) else find_from (i + n) r c)
unfolding find_from
find-run i a zero c r = ground (arith, ap (λ (t : ℕ). find_from t r c) (i_zero i))
  where
    i_zero : (i : ℕ) → i ≡ i + 0
    i_zero i = omega arith
find-run i a (suc n) c r =
    ground (arith, find-run (suc i) (suc a) n c r, ap (λ (t : ℕ). find_from t r c) (shift i n))
  where
    shift : (i n : ℕ) → suc i + n ≡ i + suc n
    shift i n = omega arith

-- The search in the alphabet finds the digit's value, for a base32 digit and for nothing else.
pub find-base32_chars :
    (c : ℕ)
    → find_from 0 base32_chars (to_upper c) ≡ (if is_base32 c then some (base32_value c) else none)
unfolding to_upper
find-base32_chars c =
    find-run 0 b'A' 26 (to_upper c) (run b'2' 6 ++ [])
    ∙ ground (arith, find-run 26 b'2' 6 (to_upper c) [], find_nil 32 (to_upper c))
  where
    find_nil : (i c : ℕ) → find_from i [] c ≡ none
    find_nil i c = unfold find_from in refl

bits_number-five_bits :
    (acc p : ℕ) (bs : Bytes)
    → p < 32
    → bits_number acc (five_bits p ++ bs) ≡ bits_number (acc * 32 + p) bs
unfolding bits_number five_bits
bits_number-five_bits acc p bs h = ap (λ (t : ℕ). bits_number t bs) (ground arith)

length-five_bits : (p : ℕ) (bs : Bytes) → length (five_bits p ++ bs) ≡ 5 + length bs
unfolding five_bits
length-five_bits p bs = omega arith

base32_value-lt : (c : ℕ) → is_base32 c ≡ true → base32_value c < 32
base32_value-lt c h = ground arith

-- The bits of a string that converts stand for its number, five to a digit.
base32_bits_lem :
    (acc : ℕ) (cs bs : Bytes)
    → base32_bits cs ≡ some bs
    → (bits_number acc bs ≡ base32_number acc cs) × (length bs ≡ 5 * length cs)
unfolding base32_bits bits_number base32_number
base32_bits_lem acc [] bs h = ground arith
base32_bits_lem acc (c ∷ cs) bs h = elim (Bool-cases (is_base32 c)) [
  | inl good ↦ elim (Option-cases (base32_bits cs)) [
    | inl e ↦ absurd (ground (arith, find-base32_chars c))
    | inr (r, e) ↦
        let ih = base32_bits_lem (acc * 32 + base32_value c) cs r e in
        let here : bs ≡ five_bits (base32_value c) ++ r = ground (arith, find-base32_chars c) in
        rw here (
          bits_number-five_bits acc (base32_value c) r (base32_value-lt c good) ∙ ih.0,
          omega (arith, ih.1, length-five_bits (base32_value c) r),
        )
  ]
  | inr bad ↦ absurd (ground (arith, find-base32_chars c))
]

hex_number-bits_to_hex :
    (n acc : ℕ) (bs : Bytes)
    → length bs ≡ 4 * n
    → (hex_number acc (bits_to_hex bs) ≡ bits_number acc bs)
      × (length (bits_to_hex bs) ≡ n)
      × (all_xdigit (bits_to_hex bs) ≡ true)
unfolding hex_number bits_to_hex bits_number all_xdigit
hex_number-bits_to_hex n acc [] h = (refl, omega arith, refl)
hex_number-bits_to_hex n acc (a ∷ []) h = absurd (omega arith)
hex_number-bits_to_hex n acc (a ∷ b ∷ []) h = absurd (omega arith)
hex_number-bits_to_hex n acc (a ∷ b ∷ c ∷ []) h = absurd (omega arith)
hex_number-bits_to_hex n acc (a ∷ b ∷ c ∷ d ∷ r) h =
    let v = nibble_value a b c d in
    let small : v < 16 = ground (arith, nibble_value_lem a b c d) in
    let ih = hex_number-bits_to_hex (n - 1) (acc * 16 + v) r (omega arith) in
    let bits =
      ◌≡◌ {A = ℕ} (acc * 16 + v)
        ((((acc * 2 + bit_value a) * 2 + bit_value b) * 2 + bit_value c) * 2 + bit_value d) in
    let bits_eq : bits = omega (arith, nibble_value_lem a b c d) in
    (
      ap (λ (t : ℕ). hex_number (acc * 16 + t) (bits_to_hex r)) (hex_value-hex_char v small)
          ∙ ih.0
          ∙ ap (λ (t : ℕ). bits_number t r) bits_eq,
      omega (arith, ih.1),
      ground (arith, hex_char-is_xdigit v small, ih.2),
    )

-- A converted base32 string: 40 hex digits that write the same number.
pub base32_to_hex_lem :
    (cs bs : Bytes)
    → length cs ≡ 32
    → base32_bits cs ≡ some bs
    → (hex_number 0 (bits_to_hex bs) ≡ base32_number 0 cs)
      × (length (bits_to_hex bs) ≡ 40)
      × (all_xdigit (bits_to_hex bs) ≡ true)
base32_to_hex_lem cs bs n h =
    let bits = base32_bits_lem 0 cs bs h in
    let hex = hex_number-bits_to_hex 40 0 bs (omega arith) in (hex.0 ∙ bits.0, hex.1, hex.2)

-- The conversion succeeds exactly on base32 characters.
pub base32_bits_total :
    (cs : Bytes) → All (λ c. is_base32 c ≡ true) cs → (bs : Bytes) × (base32_bits cs ≡ some bs)
unfolding base32_bits
base32_bits_total [] h = ([], refl)
base32_bits_total (c ∷ cs) h =
    let (bs, e) = base32_bits_total cs h.1 in
    (five_bits (base32_value c) ++ bs, ground (arith, find-base32_chars c))
