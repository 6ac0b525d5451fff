-- ===== src/HashFormat/Format.antt =====
-- What convert_hash_to_hex returns, over all its branches.
use dht_crawler.Base.{
  ◌<◌, true, ◌≡◌, refl, ◌⊎◌, inl, inr, [], Bytes, length, All, arith, Option-cases,
}
use dht_crawler.HashFormat.{
  all_xdigit, base32_bits, bits_to_hex, bytes_to_hex, base32_to_hex, convert_hash_to_hex,
}
use dht_crawler.HashFormat.Digits.{
  hex_number, unhex, unhex-bytes_to_hex, bytes_to_hex-all_xdigit, length-bytes_to_hex,
}
use dht_crawler.HashFormat.Base32.{is_base32, base32_number, base32_to_hex_lem, base32_bits_total}

-- A magnet link's info-hash: 40 hex digits.
pub record IsHexHash (h : Bytes) : Type 0 where
  pub forty : length h ≡ 40
  pub digits : all_xdigit h ≡ true

base32_to_hex-IsHexHash :
    (h : Bytes) → length h ≡ 32 → (base32_to_hex h ≡ []) ⊎ IsHexHash (base32_to_hex h)
unfolding base32_to_hex
base32_to_hex-IsHexHash h n = elim (Option-cases (base32_bits h)) [
  | inl e ↦ inl (rw (e, base32_to_hex))
  | inr (bs, e) ↦
      let ok = base32_to_hex_lem h bs n e in
      inr (rw (e, base32_to_hex) (record { forty = ok.1; digits = ok.2 }))
]

bytes_to_hex-IsHexHash : (h : Bytes) → length h ≡ 20 → IsHexHash (bytes_to_hex h)
bytes_to_hex-IsHexHash h n = record {
  forty = omega (arith, length-bytes_to_hex h);
  digits = bytes_to_hex-all_xdigit h;
}

-- The result is the empty string or 40 hex digits, whatever the input.
pub convert_hash_to_hex-IsHexHash :
    (h : Bytes) → (convert_hash_to_hex h ≡ []) ⊎ IsHexHash (convert_hash_to_hex h)
unfolding convert_hash_to_hex
convert_hash_to_hex-IsHexHash h =
    ground (arith, base32_to_hex-IsHexHash h, bytes_to_hex-IsHexHash h)

-- A hash in hex form is returned as it is.
pub convert-IsHexHash : (h : Bytes) → IsHexHash h → convert_hash_to_hex h ≡ h
unfolding convert_hash_to_hex
convert-IsHexHash h v = ground arith

-- Converting twice is converting once.
pub convert-convert :
    (h : Bytes) → convert_hash_to_hex (convert_hash_to_hex h) ≡ convert_hash_to_hex h
convert-convert h = elim (convert_hash_to_hex-IsHexHash h) [
  | inl e ↦ rw e (unfold convert_hash_to_hex in refl)
  | inr v ↦ convert-IsHexHash (convert_hash_to_hex h) v
]

-- The 20 bytes of a binary hash can be read back from its hex form.
pub unhex-convert :
    (h : Bytes) → length h ≡ 20 → All (λ c. c < 256) h → unhex (convert_hash_to_hex h) ≡ h
unfolding convert_hash_to_hex
unhex-convert h n small = ground (arith, unhex-bytes_to_hex h small)

-- A 32-character base32 hash, in letters of either case, becomes hex digits of the same number.
pub hex_number-convert :
    (h : Bytes)
    → length h ≡ 32
    → All (λ c. is_base32 c ≡ true) h
    → (hex_number 0 (convert_hash_to_hex h) ≡ base32_number 0 h) × IsHexHash (convert_hash_to_hex h)
unfolding convert_hash_to_hex base32_to_hex
hex_number-convert h n valid =
    let (bs, e) = base32_bits_total h valid in
    let ok = base32_to_hex_lem h bs n e in
    let same : convert_hash_to_hex h ≡ bits_to_hex bs = ground arith in
    rw same (ok.0, record { forty = ok.1; digits = ok.2 })
