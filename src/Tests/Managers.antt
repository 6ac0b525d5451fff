-- ===== src/Tests/Managers.antt =====
-- The managers of tokens, requests, metadata pieces and timeouts.
use dht_crawler.Base.{◌+◌, ◌≡◌, ◌≢◌, [], ◌∷◌, false, bytes, bytes_key, nat_key, leb, arith}
use dht_crawler.TokenManager.{TokenInfo, TokenManager, milliseconds, generate_token, validate_token}
use dht_crawler.TokenManager.Validation.{validate-generate}
use dht_crawler.Tests.{toy_hmac}

abbrev tokens : TokenManager
tokens = record {
  config = record { secret_key = bytes "key"; token_lifetime = 600_000; cleanup_interval = 60_000 };
  active_tokens = [];
  expired_tokens = [];
}

differ : bytes "a" ≢ bytes "b"
differ = λ e. absurd (ground (arith, e))

validate-generate_example :
    let m =
      (generate_token toy_hmac 1 (bytes "100") (bytes "s") (bytes "a") (bytes "t") tokens).0 in
    let token =
      (generate_token toy_hmac 1 (bytes "100") (bytes "s") (bytes "a") (bytes "t") tokens).1 in
    ((validate_token 5 token (bytes "a") m).1
      ≡ leb 5 (1 + milliseconds tokens.config.token_lifetime))
    × ((validate_token 5 token (bytes "b") m).1 ≡ false)
validate-generate_example =
    validate-generate toy_hmac 1 5 (bytes "100") (bytes "s") (bytes "a") (bytes "t") (bytes "b")
      tokens differ

-- A table with one token.
abbrev info : TokenInfo
info = record {
  token = bytes "ab";
  node_id = bytes "a";
  transaction_id = bytes "t";
  created_at = 0;
  expires_at = 9;
  salt = [];
  usage_count = 0;
}

abbrev stocked : TokenManager
stocked = record tokens { active_tokens = (bytes "ab", info) ∷ [] }
