-- ===== src/RequestCache/Expiry.antt =====
-- The monitor thread.
use dht_crawler.Base.{
  ℕ, ◌+◌, ◌≤◌, ◌≡◌, none, some, Bytes, bytes_key, lookup, move, Sorted, Sorted-move, lookup-prune,
  lookup-move, move-prune, arith, true, false,
}
use dht_crawler.RequestCache.{
  RequestInfo, RequestCache, expired, is_due, is_old, milliseconds, check_expired_requests,
  cleanup_expired_requests, monitor_round, sweep,
}
use dht_crawler.MonitorThread.{wake}

pub record IsOrdered (c : RequestCache) : Type 0 where
  pub active : Sorted c.active_requests
  pub expired_ones : Sorted c.expired_requests

abbrev mark_expired : RequestInfo → RequestInfo
mark_expired r = record r { status = expired }

-- A round of a monitor thread that is in its loop and not stopped, in which an active request is due
-- and its cleanup interval has not passed: the request leaves the active ones, and stands among the
-- expired ones with that status.
pub monitor_round-due :
    (now later : ℕ) (id : Bytes) (r : RequestInfo) (c : RequestCache)
    → IsOrdered c
    → lookup id c.active_requests ≡ some r
    → r.expires_at ≤ now
    → later ≤ r.expires_at + milliseconds c.config.cleanup_interval
    → c.monitor.looping ≡ true
    → c.monitor.should_stop ≡ false
    → (lookup id (monitor_round now later c).active_requests ≡ none)
      × (lookup id (monitor_round now later c).expired_requests ≡ some (mark_expired r))
unfolding monitor_round wake sweep check_expired_requests cleanup_expired_requests is_due is_old
monitor_round-due now later id r c v e due fresh on going =
    let swept = move (is_due now) mark_expired c.active_requests c.expired_requests in
    let kept = lookup-prune (is_due now) id c.active_requests v.active in
    let moved =
      lookup-move (is_due now) mark_expired id c.active_requests c.expired_requests v.active in
    let pruned =
      lookup-prune (is_old later c.config.cleanup_interval) id swept.1 (
        Sorted-move (is_due now) mark_expired c.active_requests c.expired_requests
          v.expired_ones) in
    (
      rw (move-prune (is_due now) mark_expired c.active_requests c.expired_requests)
          (ground (arith, kept)),
      ground (arith, pruned, moved),
    )
