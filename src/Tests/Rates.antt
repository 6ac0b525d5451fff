-- ===== src/Tests/Rates.antt =====
-- The rate limiter, the observer and the adaptive rate.
use dht_crawler.Base.{
  ◌+◌, ◌≡◌, ◌≤◌, refl, ℤ, pos, List, [], ◌∷◌, true, Bytes, bytes, bytes_key, contains, ◌↔◌, arith,
  map, add, Bytes-discrete, ℕ_discrete,
}
use dht_crawler.RateLimiter.{RateLimiter, init, set_rate_limit}
use dht_crawler.RateLimiter.Window.{Query, count_in, sent_by, sent_by-init-bound}
use dht_crawler.PassiveObserver.{ObservedInfo, get_high_value_infohashes, get_recent_infohashes}
use dht_crawler.PassiveObserver
use dht_crawler.PassiveObserver.History.{Tracks, observe_all, observe_all-init-Tracks}
use dht_crawler.SmartCrawler.{
  SmartCrawler, adjust_rate_based_on_success, get_priority_infohashes, record_incoming_observation,
}
use dht_crawler.SmartCrawler
use dht_crawler.SmartCrawler.Rates.{IsWanted, contains-get_priority_infohashes}
use dht_crawler.HashFormat.{bytes_to_hex, hex_char}
use dht_crawler.SmartCrawler.Queries.{send_smart_queries}
use dht_crawler.SmartCrawler.Queries.Hashes.{query_targets, send_smart_queries_hex}
use dht_crawler.Tests.{toy_dht, hex_hash, base32_hash, binary_hash}

abbrev queries : List Query
queries =
    (5, hex_hash, bytes "get_peers")
    ∷ (5, hex_hash, bytes "get_item")
    ∷ (6, base32_hash, bytes "get_peers")
    ∷ (1_000_000_007, base32_hash, bytes "get_peers")
    ∷ []

sent_by-init-bound_example :
    count_in 5 (sent_by {dht = toy_dht} [] (set_rate_limit (pos 2) (init [])) queries) ≤ 2
sent_by-init-bound_example = sent_by-init-bound toy_dht 2 [] queries (ground arith) 5

abbrev limiter : RateLimiter toy_dht
limiter = init {dht = toy_dht} []

ten_per_second : limiter.queries_per_second ≡ pos 10
unfolding init
ten_per_second = refl

fifty_in_a_burst : limiter.burst_limit ≡ pos 50
unfolding init
fifty_in_a_burst = refl

abbrev seen : Bytes → ℤ → ObservedInfo
seen h peers = record {
  infohash = h;
  source = bytes "dht";
  observed_time = 3;
  peer_count = peers;
  peer_addresses = [];
}

observe_all-init-Tracks_example :
    Tracks (seen hex_hash (pos 1) ∷ seen base32_hash (pos 4) ∷ seen hex_hash (pos 2) ∷ []) (
      observe_all dht_crawler.PassiveObserver.init
        (seen hex_hash (pos 1) ∷ seen base32_hash (pos 4) ∷ seen hex_hash (pos 2) ∷ []))
observe_all-init-Tracks_example =
    observe_all-init-Tracks
      (seen hex_hash (pos 1) ∷ seen base32_hash (pos 4) ∷ seen hex_hash (pos 2) ∷ [])

-- After 100 queries.
abbrev crawler : SmartCrawler toy_dht
crawler =
    let c : SmartCrawler toy_dht = dht_crawler.SmartCrawler.init {dht = toy_dht} [] in
    record c { rate_limiter = record limiter { total_queries = 100 } }

abbrev observing : SmartCrawler toy_dht
observing = record_incoming_observation (seen hex_hash (pos 4)) crawler

contains-get_priority_infohashes_example :
    (contains hex_hash (get_priority_infohashes 9 observing) ≡ true)
    ↔ IsWanted 9 hex_hash observing.passive_observer.observations
contains-get_priority_infohashes_example =
    contains-get_priority_infohashes {dht = toy_dht} 9 hex_hash observing

abbrev binary : List Bytes
binary = binary_hash ∷ []

priority_of_one :
    get_priority_infohashes 9
      (record_incoming_observation (seen (bytes_to_hex binary_hash) (pos 4)) crawler)
    ≡ map bytes_to_hex binary
unfolding get_priority_infohashes record_incoming_observation bytes_to_hex SmartCrawler.add_all
    get_recent_infohashes PassiveObserver.record_observation PassiveObserver.keep_recent
    PassiveObserver.note_unique contains SmartCrawler.init PassiveObserver.is_recent add
    get_high_value_infohashes Bytes-discrete ℕ_discrete hex_char
priority_of_one = refl

send_smart_queries_hex_example :
    send_smart_queries {dht = toy_dht}
      (λ i. 20 + i)
      9
      (λ i. [])
      (record_incoming_observation (seen (bytes_to_hex binary_hash) (pos 4)) crawler)
    ≡ (
      query_targets {dht = toy_dht}
          (λ i. 20 + i)
          0
          binary
          (record_incoming_observation (seen (bytes_to_hex binary_hash) (pos 4)) crawler),
      true,
    )
send_smart_queries_hex_example =
    send_smart_queries_hex {dht = toy_dht} (λ i. 20 + i) 9 (λ i. []) binary
      (record_incoming_observation (seen (bytes_to_hex binary_hash) (pos 4)) crawler)
      ((refl, ground arith), tt) priority_of_one
