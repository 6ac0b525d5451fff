-- ===== src/RateLimiter.antt =====
-- RateLimitedDHTManager of src/smart_dht_crawler.hpp: a sliding window of the instants of the
-- queries sent. An instant is a number of nanoseconds on the steady clock; ints are integers, and
-- the counters do not overflow. The log is left out.
pub mod Window
pub mod Burst
use dht_crawler.Base.{
  ℕ, suc, ◌+◌, ◌*◌, ℤ, pos, pos_part, neg_part, leb_ℤ, List, [], ◌∷◌, ◌++◌, Bool, true, false,
  Bytes, bytes, Bytes-discrete, length, ltb, leb, if◌then◌else◌, select,
}
use dht_crawler.Libtorrent.{DhtSession}
use dht_crawler.RequestTracker.{to_size_t}

abbrev pub second : ℕ
second = 1_000_000_000

abbrev pub millisecond : ℕ
millisecond = 1_000_000

pub record RateLimiter (dht : DhtSession) : Type 0 where
  pub session : dht.Session
  pub query_timestamps : List ℕ
  pub queries_per_second : ℤ
  pub burst_limit : ℤ
  pub burst_window_ms : ℤ
  pub total_queries : ℕ
  pub blocked_queries : ℕ

-- while (!empty() && now - front() > 1s) pop().
unfoldable pub drop_old : ℕ → List ℕ → List ℕ
drop_old now [] = []
drop_old now (t ∷ ts) = elim (ltb (t + second) now) [ true ↦ drop_old now ts | false ↦ t ∷ ts ]

-- timestamp > burst_start, where burst_start is now - milliseconds(window).
unfoldable pub after_start : ℕ → ℤ → ℕ → Bool
after_start now window t =
    ltb (now + neg_part window * millisecond) (t + pos_part window * millisecond)

-- The loop over the copy of the queue.
unfoldable pub burst_count : ℕ → ℤ → List ℕ → ℕ
burst_count now window ts = length (select (after_start now window) ts)

-- The call that the query type asks for, if any.
unfoldable pub dispatch : (dht : DhtSession) → dht.Session → Bytes → Bytes → dht.Session × Bool
dispatch dht s target query_type = elim (Bytes-discrete query_type (bytes "get_peers")) [
  | yes _ ↦ dht.dht_get_peers s target
  | no _ ↦ elim (Bytes-discrete query_type (bytes "get_item")) [
    | yes _ ↦ dht.dht_get_item s target
    | no _ ↦ (s, true)
  ]
]

module _ {dht : DhtSession} where
  unfoldable pub init : dht.Session → RateLimiter dht
  init session = record {
    session = session;
    query_timestamps = [];
    queries_per_second = pos 10;
    burst_limit = pos 50;
    burst_window_ms = pos 5000;
    total_queries = 0;
    blocked_queries = 0;
  }

  -- m_query_timestamps.size() >= static_cast<size_t>(m_queries_per_second).
  unfoldable pub rate_exceeded : RateLimiter dht → Bool
  rate_exceeded r = leb (to_size_t r.queries_per_second) (length r.query_timestamps)

  -- burst_count >= m_burst_limit.
  unfoldable pub burst_exceeded : ℕ → RateLimiter dht → Bool
  burst_exceeded now r =
      leb_ℤ r.burst_limit (pos (burst_count now r.burst_window_ms r.query_timestamps))

  -- The try block.
  unfoldable pub send : ℕ → Bytes → Bytes → RateLimiter dht → RateLimiter dht × Bool
  send now target query_type r =
      let (s', sent) = dispatch dht r.session target query_type in
      if sent
      then (
        record r {
          session = s';
          query_timestamps = r.query_timestamps ++ now ∷ [];
          total_queries = r.total_queries + 1;
        },
        true,
      )
      else (record r { session = s' }, false)

  -- The checks and the sending, once the old instants are gone.
  unfoldable pub check_and_send : ℕ → Bytes → Bytes → RateLimiter dht → RateLimiter dht × Bool
  check_and_send now target query_type r =
      if rate_exceeded r
      then (record r { blocked_queries = r.blocked_queries + 1 }, false)
      else if burst_exceeded now r
      then (record r { blocked_queries = r.blocked_queries + 1 }, false)
      else send now target query_type r

  unfoldable pub send_query : ℕ → Bytes → Bytes → RateLimiter dht → RateLimiter dht × Bool
  send_query now target query_type r =
      check_and_send now target query_type
        (record r { query_timestamps = drop_old now r.query_timestamps })

  unfoldable pub set_rate_limit : ℤ → RateLimiter dht → RateLimiter dht
  set_rate_limit queries_per_second r = record r { queries_per_second = queries_per_second }

  unfoldable pub set_burst_limit : ℤ → ℤ → RateLimiter dht → RateLimiter dht
  set_burst_limit burst_limit window_ms r = record r {
    burst_limit = burst_limit;
    burst_window_ms = window_ms;
  }
