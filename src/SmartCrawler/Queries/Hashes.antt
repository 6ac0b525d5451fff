-- ===== src/SmartCrawler/Queries/Hashes.antt =====
-- The hashes that were observed in hex are queried, and none makes the call throw.
use dht_crawler.Base.{ℕ, ◌+◌, ◌<◌, ◌≡◌, refl, List, [], ◌∷◌, true, Bytes, length, All, arith, map}
use dht_crawler.Libtorrent.{DhtSession}
use dht_crawler.HashFormat.{bytes_to_hex}
use dht_crawler.HashFormat.Digits.{length-bytes_to_hex}
use dht_crawler.Stoi.Hex.{target_of-bytes_to_hex}
use dht_crawler.SmartCrawler.{SmartCrawler, get_priority_infohashes}
use dht_crawler.SmartCrawler.Queries.{query_target, query_hashes, send_smart_queries}

-- A hash of 20 bytes.
abbrev pub IsHash : Bytes → Type 0
IsHash b = (length b ≡ 20) × All (λ c. c < 256) b

module _ {dht : DhtSession} (clock : ℕ → ℕ) where
  -- The queries with these targets, in turn.
  unfoldable pub query_targets : ℕ → List Bytes → SmartCrawler dht → SmartCrawler dht
  query_targets i [] c = c
  query_targets i (t ∷ ts) c = query_targets (i + 1) ts (query_target clock i t c)

  query_hashes_hex :
      (bs : List Bytes) (i : ℕ) (c : SmartCrawler dht)
      → All IsHash bs
      → query_hashes clock i (map bytes_to_hex bs) c ≡ (query_targets i bs c, true)
  unfolding query_hashes query_targets
  query_hashes_hex [] i c a = refl
  query_hashes_hex (b ∷ bs) i c a = ground (
    arith,
    length-bytes_to_hex b,
    a.0.0,
    target_of-bytes_to_hex b a.0.1,
    query_hashes_hex bs (i + 1) (query_target clock i b c) a.1,
  )

  -- Where the priority hashes are those of `bs` in hex, as the handlers of alerts record them,
  -- send_smart_queries does not throw: it queries each hash of `bs` in turn, and three random ones if
  -- there is none.
  pub send_smart_queries_hex :
      (now : ℕ) (draws : ℕ → Bytes) (bs : List Bytes) (c : SmartCrawler dht)
      → All IsHash bs
      → get_priority_infohashes now c ≡ map bytes_to_hex bs
      → send_smart_queries clock now draws c ≡ (
        query_targets 0 (elim bs [ [] ↦ draws 0 ∷ draws 1 ∷ draws 2 ∷ [] | b ∷ r ↦ b ∷ r ]) c,
        true,
      )
  unfolding send_smart_queries query_targets
  send_smart_queries_hex now draws [] c a e = rw (e, send_smart_queries) refl
  send_smart_queries_hex now draws (b ∷ bs) c a e =
      rw (e, send_smart_queries) (query_hashes_hex (b ∷ bs) 0 c a)
