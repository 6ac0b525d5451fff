-- ===== src/TokenManager.antt =====
-- DHTTokenManager of src/dht_token_manager.cpp: the tokens handed to DHT nodes, active and expired.
-- HMAC-SHA1 of OpenSSL is a parameter. The clock, the text of std::time and the salt are arguments.
-- An instant is a number of nanoseconds, the configured intervals are milliseconds.
pub mod Validation
pub mod Cleanup
use dht_crawler.Base.{
  ℕ, ◌+◌, ◌*◌, List, [], ◌∷◌, ◌++◌, Option, none, some, Bool, true, false, Bytes, bytes_key,
  Bytes-discrete, StdMap, lookup, insert, erase, move, prune, keys, length, ltb, if◌then◌else◌,
}
use dht_crawler.HashFormat.{bytes_to_hex}

-- HMAC(EVP_sha1(), key, data).
abbrev pub Hmac : Type 0
Hmac = Bytes → Bytes → Bytes

pub record TokenConfig : Type 0 where
  pub secret_key : Bytes
  pub token_lifetime : ℕ
  pub cleanup_interval : ℕ

pub record TokenInfo : Type 0 where
  pub token : Bytes
  pub node_id : Bytes
  pub transaction_id : Bytes
  pub created_at : ℕ
  pub expires_at : ℕ
  pub salt : Bytes
  pub usage_count : ℕ

-- TokenInfo{}.
abbrev pub empty_info : TokenInfo
empty_info = record {
  token = [];
  node_id = [];
  transaction_id = [];
  created_at = 0;
  expires_at = 0;
  salt = [];
  usage_count = 0;
}

pub record TokenManager : Type 0 where
  pub config : TokenConfig
  pub active_tokens : StdMap Bytes TokenInfo
  pub expired_tokens : StdMap Bytes TokenInfo

-- std::chrono::milliseconds in nanoseconds.
abbrev pub milliseconds : ℕ → ℕ
milliseconds n = n * 1_000_000

-- createHMACToken takes the salt and does not use it.
unfoldable pub create_hmac_token : Hmac → Bytes → Bytes → Bytes → Bytes
create_hmac_token hmac secret_key token_data salt = bytes_to_hex (hmac secret_key token_data)

unfoldable pub generate_token :
    Hmac → ℕ → Bytes → Bytes → Bytes → Bytes → TokenManager → TokenManager × Bytes
generate_token hmac now time_text salt node_id transaction_id m =
    let token_data = node_id ++ (transaction_id ++ time_text) in
    let token = create_hmac_token hmac m.config.secret_key token_data salt in
    let info : TokenInfo = record {
      token = token;
      node_id = node_id;
      transaction_id = transaction_id;
      created_at = now;
      expires_at = now + milliseconds m.config.token_lifetime;
      salt = salt;
      usage_count = 0;
    } in
    (record m { active_tokens = insert token info m.active_tokens }, token)

-- now > expires_at.
unfoldable pub has_expired : ℕ → TokenInfo → Bool
has_expired now info = ltb info.expires_at now

unfoldable pub validate_token : ℕ → Bytes → Bytes → TokenManager → TokenManager × Bool
validate_token now token node_id m = elim (lookup token m.active_tokens) [
  | none ↦ (m, false)
  | some info ↦ elim (has_expired now info) [
    | true ↦ (
      record m {
        active_tokens = erase token m.active_tokens;
        expired_tokens = insert token info m.expired_tokens;
      },
      false,
    )
    | false ↦ elim (Bytes-discrete info.node_id node_id) [
      | no _ ↦ (m, false)
      | yes _ ↦ (
        record m {
          active_tokens =
              insert token (record info { usage_count = info.usage_count + 1 }) m.active_tokens;
        },
        true,
      )
    ]
  ]
]

unfoldable pub refresh_token : ℕ → Bytes → TokenManager → TokenManager × Bool
refresh_token now token m = elim (lookup token m.active_tokens) [
  | none ↦ (m, false)
  | some info ↦ (
    record m {
      active_tokens =
          insert token (record info { expires_at = now + milliseconds m.config.token_lifetime })
            m.active_tokens;
    },
    true,
  )
]

unfoldable pub is_token_expired : ℕ → Bytes → TokenManager → Bool
is_token_expired now token m = elim (lookup token m.active_tokens) [
  | none ↦ elim (lookup token m.expired_tokens) [ none ↦ false | some _ ↦ true ]
  | some info ↦ has_expired now info
]

unfoldable pub get_token_info : Bytes → TokenManager → TokenInfo
get_token_info token m = elim (lookup token m.active_tokens) [
  | some info ↦ info
  | none ↦ elim (lookup token m.expired_tokens) [ some info ↦ info | none ↦ empty_info ]
]

unfoldable pub get_active_tokens : TokenManager → List Bytes
get_active_tokens m = keys m.active_tokens

unfoldable pub get_expired_tokens : TokenManager → List Bytes
get_expired_tokens m = keys m.expired_tokens

unfoldable pub get_active_token_count : TokenManager → ℕ
get_active_token_count m = length m.active_tokens

unfoldable pub get_expired_token_count : TokenManager → ℕ
get_expired_token_count m = length m.expired_tokens

unfoldable pub get_total_token_count : TokenManager → ℕ
get_total_token_count m = length m.active_tokens + length m.expired_tokens

-- now - expires_at > milliseconds(cleanup_interval).
unfoldable pub is_old : ℕ → ℕ → TokenInfo → Bool
is_old now interval info = ltb (info.expires_at + milliseconds interval) now

unfoldable pub cleanup_expired_tokens : ℕ → TokenManager → TokenManager
cleanup_expired_tokens now m =
    let (active, expired) =
      move (has_expired now) (λ info. info) m.active_tokens m.expired_tokens in
    record m {
      active_tokens = active;
      expired_tokens = prune (is_old now m.config.cleanup_interval) expired;
    }

unfoldable pub clear_all_tokens : TokenManager → TokenManager
clear_all_tokens m = record m { active_tokens = []; expired_tokens = [] }

unfoldable pub update_config : TokenConfig → TokenManager → TokenManager
update_config config m = record m { config = config }
