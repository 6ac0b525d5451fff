-- ===== src/TokenManager/Cleanup.antt =====
-- The periodic cleanup.
use dht_crawler.Base.{
  ℕ, ◌≡◌, ◌∙◌, Bytes, bytes_key, lookup, Sorted, Sorted-move, lookup-prune, lookup-move, move-prune,
  unless_passes, if_passes,
}
use dht_crawler.TokenManager.{TokenManager, has_expired, is_old, cleanup_expired_tokens}

-- Both maps are in key order, as a std::map is.
pub record IsOrdered (m : TokenManager) : Type 0 where
  pub active : Sorted m.active_tokens
  pub expired : Sorted m.expired_tokens

lookup_active :
    (now : ℕ) (q : Bytes) (m : TokenManager)
    → IsOrdered m
    → lookup q (cleanup_expired_tokens now m).active_tokens
      ≡ unless_passes (has_expired now) (lookup q m.active_tokens)
unfolding cleanup_expired_tokens
lookup_active now q m v =
    rw (move-prune (has_expired now) (λ i. i) m.active_tokens m.expired_tokens)
      (lookup-prune (has_expired now) q m.active_tokens v.active)

lookup_expired :
    (now : ℕ) (q : Bytes) (m : TokenManager)
    → IsOrdered m
    → lookup q (cleanup_expired_tokens now m).expired_tokens
      ≡ unless_passes (is_old now m.config.cleanup_interval) (
          if_passes
            (has_expired now)
            (λ i. i)
            (lookup q m.active_tokens)
            (lookup q m.expired_tokens))
unfolding cleanup_expired_tokens
lookup_expired now q m v =
    lookup-prune (is_old now m.config.cleanup_interval) q _
      (Sorted-move (has_expired now) (λ i. i) m.active_tokens m.expired_tokens v.expired)
    ∙ rw (lookup-move (has_expired now) (λ i. i) q m.active_tokens m.expired_tokens v.active)

-- After a cleanup a token is active exactly if it was active and not expired. An expired token is
-- kept for the cleanup interval beyond its expiry, and is then forgotten.
pub cleanup_tokens-lookup :
    (now : ℕ) (token : Bytes) (m : TokenManager)
    → IsOrdered m
    → (lookup token (cleanup_expired_tokens now m).active_tokens
        ≡ unless_passes (has_expired now) (lookup token m.active_tokens))
      × (lookup token (cleanup_expired_tokens now m).expired_tokens
          ≡ unless_passes (is_old now m.config.cleanup_interval) (
              if_passes
                (has_expired now)
                (λ i. i)
                (lookup token m.active_tokens)
                (lookup token m.expired_tokens)))
cleanup_tokens-lookup now token m v = (lookup_active now token m v, lookup_expired now token m v)
