-- ===== src/RateLimiter/Burst.antt =====
-- The burst check behind the rate check. The window forgets what is more than a second old, so the
-- burst check never sees more instants than the rate check lets through.
use dht_crawler.Base.{
  ℕ, ◌≤◌, ◌+◌, pos, ◌≡◌, inl, inr, false, Bytes, arith, Bool-cases, length-select-le, if◌then◌else◌,
}
use dht_crawler.Libtorrent.{DhtSession}
use dht_crawler.RequestTracker.{to_size_t}
use dht_crawler.RateLimiter.{
  RateLimiter, drop_old, after_start, burst_count, rate_exceeded, burst_exceeded, send,
  check_and_send, send_query,
}

module _ {dht : DhtSession} where
  burst_free :
      (now n b : ℕ) (r : RateLimiter dht)
      → r.queries_per_second ≡ pos n
      → r.burst_limit ≡ pos b
      → n ≤ b
      → rate_exceeded r ≡ false
      → burst_exceeded now r ≡ false
  unfolding rate_exceeded burst_exceeded burst_count to_size_t
  burst_free now n b r e f h free =
      ground (arith, length-select-le (after_start now r.burst_window_ms) r.query_timestamps)

  -- Where the burst limit is at least the rate limit, as it is by default (50 and 10), the burst
  -- limit and its window have no effect: the rate check alone decides, at every instant.
  pub send_query-rate_only :
      (now n b : ℕ) (target query_type : Bytes) (r : RateLimiter dht)
      → r.queries_per_second ≡ pos n
      → r.burst_limit ≡ pos b
      → n ≤ b
      → let kept : RateLimiter dht = record r {
        query_timestamps = drop_old now r.query_timestamps;
      } in
        send_query now target query_type r ≡ (
          if rate_exceeded kept
          then (record kept { blocked_queries = r.blocked_queries + 1 }, false)
          else send now target query_type kept)
  unfolding send_query check_and_send
  send_query-rate_only now n b target query_type r e f h =
      let kept : RateLimiter dht = record r {
        query_timestamps = drop_old now r.query_timestamps;
      } in
      elim (Bool-cases (rate_exceeded kept)) [
        | inl full ↦ rw full
        | inr free ↦ rw (free, burst_free now n b kept e f h free)
      ]
