-- ===== src/Tests/Hashes.antt =====
-- Hashes in their three forms.
use dht_crawler.Base.{◌≡◌, refl, ◌⊎◌, ◌<◌, All, [], bytes, arith, true}
use dht_crawler.HashFormat.{convert_hash_to_hex, base32_chars, find_from, to_upper}
use dht_crawler.HashFormat.Base32.{is_base32, base32_number}
use dht_crawler.HashFormat.Digits.{unhex, hex_number}
use dht_crawler.HashFormat.Format.{
  IsHexHash, convert_hash_to_hex-IsHexHash, unhex-convert, hex_number-convert,
}
use dht_crawler.Tests.{hex_hash, base32_hash, binary_hash}

converted :
    convert_hash_to_hex (bytes "AAAAAAAAAAAAAAAAAAAAAAAAAAAAAAAB")
    ≡ bytes "0000000000000000000000000000000000000001"
unfolding convert_hash_to_hex dht_crawler.HashFormat.base32_to_hex dht_crawler.HashFormat.five_bits
    dht_crawler.HashFormat.hex_char
converted = refl

convert_hash_to_hex-IsHexHash_example :
    (convert_hash_to_hex hex_hash ≡ []) ⊎ IsHexHash (convert_hash_to_hex hex_hash)
convert_hash_to_hex-IsHexHash_example = convert_hash_to_hex-IsHexHash hex_hash

All-bytes : All (λ c. c < 256) binary_hash
All-bytes = ground arith

unhex-convert_example : unhex (convert_hash_to_hex binary_hash) ≡ binary_hash
unhex-convert_example = unhex-convert binary_hash refl All-bytes

All-base32 : All (λ c. is_base32 c ≡ true) base32_hash
All-base32 = ground arith

hex_number-convert_example :
    (hex_number 0 (convert_hash_to_hex base32_hash) ≡ base32_number 0 base32_hash)
    × IsHexHash (convert_hash_to_hex base32_hash)
hex_number-convert_example = hex_number-convert base32_hash refl All-base32
