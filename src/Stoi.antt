-- ===== src/Stoi.antt =====
-- std::stoi of a decimal text to int: blanks, a sign, digits, and a rest that is ignored. none: an
-- exception, since there is no digit, or the number is no int of 32 bits.
pub mod Hex
use dht_crawler.Base.{
  ℕ, zero, suc, ◌+◌, ◌-◌, ◌*◌, ◌/◌, ◌%◌, ◌^◌, ◌≤◌, ◌<◌, ◌≡◌, refl, sym, ap, ◌∙◌, ℤ, pos, negsuc, [],
  ◌∷◌, Option, none, some, Bool, true, false, ◌&&◌, ◌||◌, Bytes, ltb, leb, ◌==◌, if◌then◌else◌,
  arith, Bool-cases, inl, inr,
}
use dht_crawler.MetadataProtocol.{digits, to_string}

unfoldable pub is_digit : ℕ → Bool
is_digit c = leb b'0' c && leb c b'9'

-- isspace of the C locale.
unfoldable pub is_space : ℕ → Bool
is_space c = c == 32 || leb 9 c && leb c 13

unfoldable pub skip_spaces : Bytes → Bytes
skip_spaces [] = []
skip_spaces (c ∷ cs) = elim (is_space c) [ true ↦ skip_spaces cs | false ↦ c ∷ cs ]

-- The number that `n` and the digits behind it make.
unfoldable pub read_digits : ℕ → Bytes → ℕ
read_digits n [] = n
read_digits n (c ∷ cs) = elim (is_digit c) [
  | true ↦ read_digits (n * 10 + (c - b'0')) cs
  | false ↦ n
]

unfoldable pub read_number : Bytes → Option ℕ
read_number [] = none
read_number (c ∷ cs) = if is_digit c then some (read_digits 0 (c ∷ cs)) else none

-- The value with its sign, if it is an int.
unfoldable pub positive : Option ℕ → Option ℤ
positive none = none
positive (some n) = if ltb n (2 ^ 31) then some (pos n) else none

unfoldable pub negative : Option ℕ → Option ℤ
negative none = none
negative (some zero) = some (pos 0)
negative (some (suc n)) = if ltb n (2 ^ 31) then some (negsuc n) else none

unfoldable pub signed : Bytes → Option ℤ
signed [] = none
signed (c ∷ cs) =
    if c == b'-'
    then negative (read_number cs)
    else if c == b'+'
    then positive (read_number cs)
    else positive (read_number (c ∷ cs))

unfoldable pub stoi : Bytes → Option ℤ
unfolding skip_spaces signed
stoi text = signed (skip_spaces text)

read_digit :
    (m d : ℕ) (rest : Bytes)
    → d < 10
    → read_digits m ((48 + d) ∷ rest) ≡ read_digits (m * 10 + d) rest
unfolding read_digits is_digit
read_digit m d rest h =
    let back : (48 + d) - b'0' ≡ d = omega arith in
    let inside : is_digit (48 + d) ≡ true = ground arith in rw (inside, read_digits) (rw back refl)

read_digits-digits :
    (fuel n : ℕ) (rest : Bytes) → n < fuel → read_digits 0 (digits fuel n rest) ≡ read_digits n rest
unfolding digits
read_digits-digits zero n rest h = absurd (omega arith)
read_digits-digits (suc fuel) n rest h = elim (Bool-cases (ltb n 10)) [
  | inl small ↦
      let same : 0 * 10 + n ≡ n = omega arith in
      rw small (read_digit 0 n rest (ground arith) ∙ ap (λ m. read_digits m rest) same)
  | inr large ↦
      let whole : n / 10 * 10 + n % 10 ≡ n = omega arith in
      rw large (
        read_digits-digits fuel (n / 10) ((48 + n % 10) ∷ rest) (ground arith)
        ∙ read_digit (n / 10) (n % 10) rest (omega arith)
        ∙ ap (λ m. read_digits m rest) whole)
]

-- The text of a natural number begins with a digit.
digits_first :
    (fuel n : ℕ) (rest : Bytes)
    → n < fuel
    → (c : ℕ) × (cs : Bytes) × (digits fuel n rest ≡ c ∷ cs) × (48 ≤ c) × (c ≤ 57)
unfolding digits
digits_first zero n rest h = absurd (omega arith)
digits_first (suc fuel) n rest h = elim (Bool-cases (ltb n 10)) [
  | inl small ↦ (48 + n, rest, ground arith, omega arith, ground arith)
  | inr large ↦
      let (c, cs, e, low, high) =
        digits_first fuel (n / 10) ((48 + n % 10) ∷ rest) (ground arith) in
      (c, cs, ground (arith, e), low, high)
]

read_number-digits : (n : ℕ) → read_number (digits (suc n) n []) ≡ some n
unfolding read_number is_digit read_digits
read_number-digits n =
    let (c, cs, e, low, high) = digits_first (suc n) n [] (omega arith) in
    let whole : read_digits 0 (c ∷ cs) ≡ n =
      ap (read_digits 0) (sym e) ∙ read_digits-digits (suc n) n [] (omega arith) in
    rw e (ground (arith, whole))

-- stoi reads back what to_string writes, for every int.
abbrev pub IsInt : ℤ → Type 0
IsInt (pos n) = n < 2 ^ 31
IsInt (negsuc n) = n < 2 ^ 31

pub stoi-to_string : (z : ℤ) → IsInt z → stoi (to_string z) ≡ some z
unfolding stoi to_string signed positive negative is_space
stoi-to_string (pos n) h =
    let (c, cs, e, low, high) = digits_first (suc n) n [] (omega arith) in
    let read : read_number (c ∷ cs) ≡ some n = ap read_number (sym e) ∙ read_number-digits n in
    rw e (ground (arith, read))
stoi-to_string (negsuc n) h = ground (arith, read_number-digits (suc n))
