-- ===== src/SmartCrawler.antt =====
-- SmartDHTCrawler of src/smart_dht_crawler.hpp: the adaptive rate and the choice of infohashes.
-- The success rate is a double that the code only compares: the two comparisons are arguments,
-- `above` for success_rate > m_success_threshold and `below` for
-- success_rate < m_success_threshold / 2. send_smart_queries is in Queries.
pub mod Rates
pub mod Queries
use dht_crawler.Base.{
  ℕ, ℤ, pos, ◌+ℤ◌, ◌-ℤ◌, ltb_ℤ, List, [], ◌∷◌, Bool, true, false, Bytes, bytes_key, StdSet, add,
  if◌then◌else◌,
}
use dht_crawler.Libtorrent.{DhtSession}
use dht_crawler.RateLimiter.{RateLimiter, set_rate_limit}
use dht_crawler.RateLimiter
use dht_crawler.PassiveObserver.{
  PassiveObserver, ObservedInfo, record_observation, get_high_value_infohashes,
  get_recent_infohashes,
}
use dht_crawler.PassiveObserver

pub record SmartCrawler (dht : DhtSession) : Type 0 where
  pub rate_limiter : RateLimiter dht
  pub passive_observer : PassiveObserver
  pub adaptive_rate : Bool
  pub base_rate : ℤ
  pub max_rate : ℤ

-- set.insert in a loop.
unfoldable pub add_all : List Bytes → StdSet Bytes → StdSet Bytes
add_all [] s = s
add_all (h ∷ hs) s = add_all hs (add h s)

module _ {dht : DhtSession} where
  unfoldable pub init : dht.Session → SmartCrawler dht
  init session = record {
    rate_limiter = RateLimiter.init session;
    passive_observer = PassiveObserver.init;
    adaptive_rate = true;
    base_rate = pos 5;
    max_rate = pos 20;
  }

  unfoldable pub adjust_rate_based_on_success : Bool → Bool → SmartCrawler dht → SmartCrawler dht
  adjust_rate_based_on_success above below c =
      if c.adaptive_rate
      then (if above
          then (if ltb_ℤ current_rate c.max_rate
              then record c { rate_limiter = set_rate_limit (current_rate +ℤ pos 1) c.rate_limiter }
              else c)
          else if below
          then (if ltb_ℤ c.base_rate current_rate
              then record c { rate_limiter = set_rate_limit (current_rate -ℤ pos 1) c.rate_limiter }
              else c)
          else c)
      else c
    where
      -- get_total_queries().
      current_rate : ℤ
      current_rate = pos c.rate_limiter.total_queries

  -- The vector of the combined set.
  unfoldable pub get_priority_infohashes : ℕ → SmartCrawler dht → List Bytes
  get_priority_infohashes now c =
      add_all (get_recent_infohashes now (pos 10) c.passive_observer)
        (add_all (get_high_value_infohashes (pos 3) c.passive_observer) [])

  unfoldable pub record_incoming_observation : ObservedInfo → SmartCrawler dht → SmartCrawler dht
  record_incoming_observation info c = record c {
    passive_observer = record_observation info c.passive_observer;
  }
