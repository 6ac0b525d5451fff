-- ===== src/SmartCrawler/Queries.antt =====
-- send_smart_queries of src/smart_dht_crawler.hpp. The i-th reading of the clock and the i-th random
-- hash are arguments.
pub mod Hashes
pub mod Readable
use dht_crawler.Base.{
  ℕ, zero, suc, ◌+◌, List, [], ◌∷◌, Option, none, some, Bool, true, false, Bytes, bytes, length,
  ◌==◌,
}
use dht_crawler.Libtorrent.{DhtSession}
use dht_crawler.RateLimiter.{RateLimiter, send_query}
use dht_crawler.Stoi.Hex.{target_of}
use dht_crawler.SmartCrawler.{SmartCrawler, get_priority_infohashes}

module _ {dht : DhtSession} (clock : ℕ → ℕ) where
  -- m_rate_limiter.send_query(target, "get_peers").
  unfoldable pub query_target : ℕ → Bytes → SmartCrawler dht → SmartCrawler dht
  query_target i target c = record c {
    rate_limiter = (send_query (clock i) target (bytes "get_peers") c.rate_limiter).0;
  }

  -- The loop over the hashes, of which those with 40 characters are queried. The second component is
  -- false where std::stoi throws, which ends the call.
  unfoldable pub query_hashes : ℕ → List Bytes → SmartCrawler dht → SmartCrawler dht × Bool
  query_hashes i [] c = (c, true)
  query_hashes i (h ∷ hs) c = elim (length h == 40) [
    | false ↦ query_hashes i hs c
    | true ↦ elim (target_of h) [
      | none ↦ (c, false)
      | some target ↦ query_hashes (i + 1) hs (query_target i target c)
    ]
  ]

  -- Three random targets where there is no hash.
  unfoldable pub query_random : (ℕ → Bytes) → SmartCrawler dht → SmartCrawler dht
  query_random draws c =
      query_target 2 (draws 2) (query_target 1 (draws 1) (query_target 0 (draws 0) c))

  unfoldable pub send_smart_queries : ℕ → (ℕ → Bytes) → SmartCrawler dht → SmartCrawler dht × Bool
  unfolding query_hashes query_random
  send_smart_queries now draws c = elim (get_priority_infohashes now c) [
    | [] ↦ (query_random draws c, true)
    | h ∷ hs ↦ query_hashes 0 (h ∷ hs) c
  ]
