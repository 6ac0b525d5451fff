-- ===== src/TokenManager/Validation.antt =====
-- When a token is good, and when it is not.
use dht_crawler.Base.{
  ℕ, ◌+◌, ◌<◌, ◌≡◌, ◌≢◌, ◌++◌, Option, none, some, Bool, true, false, Bytes, bytes_key,
  Bytes-discrete, lookup, lookup-insert, lookup-erase, leb, ite, arith,
}
use dht_crawler.TokenManager.{
  Hmac, TokenInfo, TokenManager, milliseconds, create_hmac_token, generate_token, has_expired,
  validate_token, refresh_token, is_token_expired,
}

-- The answer of validate_token, by the table's entry.
abbrev pub answer : ℕ → Bytes → Option TokenInfo → Bool
answer now node none = false
answer now node (some info) = elim (has_expired now info) [
  | true ↦ false
  | false ↦ elim (Bytes-discrete info.node_id node) [ yes _ ↦ true | no _ ↦ false ]
]

pub validate_token-answer :
    (now : ℕ) (token node : Bytes) (m : TokenManager)
    → (validate_token now token node m).1 ≡ answer now node (lookup token m.active_tokens)
unfolding validate_token
validate_token-answer now token node m = ground arith

-- The entry that generate_token stores under the token that it returns.
abbrev pub issued : Hmac → ℕ → Bytes → Bytes → Bytes → Bytes → TokenManager → TokenInfo
issued hmac now time_text salt node tx m = record {
  token = (generate_token hmac now time_text salt node tx m).1;
  node_id = node;
  transaction_id = tx;
  created_at = now;
  expires_at = now + milliseconds m.config.token_lifetime;
  salt = salt;
  usage_count = 0;
}

pub lookup-generate :
    (hmac : Hmac) (now : ℕ) (time_text salt node tx q : Bytes) (m : TokenManager)
    → lookup q (generate_token hmac now time_text salt node tx m).0.active_tokens
      ≡ ite
          (Bytes-discrete (generate_token hmac now time_text salt node tx m).1 q)
          (some (issued hmac now time_text salt node tx m))
          (lookup q m.active_tokens)
unfolding generate_token
lookup-generate hmac now time_text salt node tx q m =
    lookup-insert (create_hmac_token hmac m.config.secret_key (node ++ (tx ++ time_text)) salt) q
      (issued hmac now time_text salt node tx m) m.active_tokens

-- A new token is good for its node exactly until its lifetime is over, and for no other node.
pub validate-generate :
    (hmac : Hmac) (now later : ℕ) (time_text salt node tx other : Bytes) (m : TokenManager)
    → node ≢ other
    → let m' = (generate_token hmac now time_text salt node tx m).0 in
      let token = (generate_token hmac now time_text salt node tx m).1 in
      ((validate_token later token node m').1
        ≡ leb later (now + milliseconds m.config.token_lifetime))
      × ((validate_token later token other m').1 ≡ false)
unfolding has_expired
validate-generate hmac now later time_text salt node tx other m ne =
    let m' = (generate_token hmac now time_text salt node tx m).0 in
    let token = (generate_token hmac now time_text salt node tx m).1 in
    let stored = lookup-generate hmac now time_text salt node tx token m in
    (
      ground (arith, stored, validate_token-answer later token node m'),
      ground (arith, stored, validate_token-answer later token other m'),
    )

-- A token that is found expired is moved: it is never good again, however often it is tried or
-- refreshed.
pub validate_expired :
    (now later : ℕ) (token node other : Bytes) (info : TokenInfo) (m : TokenManager)
    → lookup token m.active_tokens ≡ some info
    → info.expires_at < now
    → let m' = (validate_token now token node m).0 in
      ((validate_token now token node m).1 ≡ false)
      × (lookup token m'.expired_tokens ≡ some info)
      × ((validate_token later token other m').1 ≡ false)
      × ((refresh_token later token m').1 ≡ false)
      × (is_token_expired later token m' ≡ true)
unfolding validate_token refresh_token is_token_expired has_expired
validate_expired now later token node other info m e late = ground (
  arith,
  lookup-erase token token m.active_tokens,
  lookup-insert token token info m.expired_tokens,
)

-- refresh_token does not look at the expiry: a token that is over but still in the table is good
-- again, for its node.
pub validate-refresh :
    (now : ℕ) (token : Bytes) (info : TokenInfo) (m : TokenManager)
    → lookup token m.active_tokens ≡ some info
    → (validate_token now token info.node_id (refresh_token now token m).0).1 ≡ true
unfolding validate_token refresh_token has_expired
validate-refresh now token info m e = ground (
  arith,
  lookup-insert token token
      (record info { expires_at = now + milliseconds m.config.token_lifetime }) m.active_tokens,
)

generate_same :
    (hmac : Hmac) (now now' : ℕ) (time_text salt salt' node node' tx tx' : Bytes) (m : TokenManager)
    → node ++ (tx ++ time_text) ≡ node' ++ (tx' ++ time_text)
    → let first = generate_token hmac now time_text salt node tx m in
      (generate_token hmac now' time_text salt' node' tx' first.0).1 ≡ first.1
unfolding generate_token create_hmac_token
generate_same hmac now now' time_text salt salt' node node' tx tx' m same = rw same

-- The token depends on the node and the transaction only through their concatenation, and not at
-- all on the salt. So when a second node asks in the same second with a transaction that gives the
-- same concatenation, it gets the first node's token, and the first node's is no longer good.
pub generate-collides :
    (hmac : Hmac) (now now' later : ℕ) (time_text salt salt' node node' tx tx' : Bytes)
    (m : TokenManager)
    → node ++ (tx ++ time_text) ≡ node' ++ (tx' ++ time_text)
    → node' ≢ node
    → let first = generate_token hmac now time_text salt node tx m in
      let second = generate_token hmac now' time_text salt' node' tx' first.0 in
      (second.1 ≡ first.1) × ((validate_token later first.1 node second.0).1 ≡ false)
generate-collides hmac now now' later time_text salt salt' node node' tx tx' m same ne =
    let first = generate_token hmac now time_text salt node tx m in
    let second = generate_token hmac now' time_text salt' node' tx' first.0 in
    let tokens = generate_same hmac now now' time_text salt salt' node node' tx tx' m same in
    (
      tokens,
      ground (
        arith,
        tokens,
        lookup-generate hmac now' time_text salt' node' tx' first.1 first.0,
        validate_token-answer later first.1 node second.0,
      ),
    )
