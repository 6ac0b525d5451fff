-- ===== src/Tests/Protocols.antt =====
-- The managers of requests, metadata pieces and timeouts.
use dht_crawler.Base.{
  ◌≡◌, refl, pos, some, none, List, [], ◌∷◌, true, false, bytes, bytes_key, nat_key, lookup, length,
  Bytes-discrete, ℕ_discrete,
}
use dht_crawler.RequestCache.{
  RequestCache, CacheConfig, add_request, mark_request_complete, mark_request_failed,
  get_request_info, get_request_status, not_found, failed, monitor_round,
}
use dht_crawler.RequestCache
use dht_crawler.RequestCache.Lifecycle.{Failure, fail_all, IsTried, add-fail_all}
use dht_crawler.MetadataProtocol.{init, process_piece, assemble_metadata, is_complete}
use dht_crawler.MetadataProtocol.Progress.{Call, request, piece, run, run-refuses}
use dht_crawler.MonitorThread.{started}
use dht_crawler.TimeoutManager.Restart.{rounds, restart_stays_dead}
use dht_crawler.TimeoutManager.{
  start, stop, is_running, TimeoutInfo, TimeoutManager, start_timeout, stop_timeout, is_due,
  get_remaining_time, check_expired_timeouts,
}
use dht_crawler.TimeoutManager
use dht_crawler.TimeoutManager.Monitor.{fired, check-fires_once, stop-silences, remaining-start}
use dht_crawler.TimeoutManager.Monitor

abbrev pending_request : dht_crawler.RequestCache.RequestInfo
pending_request = record {
  id = bytes "R1";
  type = bytes "find";
  target_id = bytes "t";
  parameters = [];
  status = dht_crawler.RequestCache.pending;
  result_data = [];
  error_message = [];
  created_at = 0;
  expires_at = 9;
  completed_at = 0;
  failed_at = 0;
  retry_count = 0;
  max_retries = 3;
}

abbrev cache : RequestCache
cache = record {
  config = record { request_timeout = 30; cleanup_interval = 60; max_retries = 3 };
  active_requests = (bytes "R1", pending_request) ∷ [];
  completed_requests = [];
  failed_requests = [];
  expired_requests = [];
  monitor = started;
}

abbrev failures : List Failure
failures = (1, 2, bytes "refused") ∷ (3, 4, bytes "reset") ∷ []

add-fail_all_example :
    let tried =
      fail_all
        (bytes "R2")
        failures
        (add_request 0 (bytes "R2") (bytes "find") (bytes "t") [] cache).0 in
    let ended = (mark_request_failed 5 6 (bytes "R2") (bytes "reset") tried).0 in
    IsTried (bytes "R2") (length failures) cache.config.max_retries tried
    × (lookup (bytes "R2") ended.active_requests ≡ none)
    × ((r : dht_crawler.RequestCache.RequestInfo) × (lookup (bytes "R2") ended.failed_requests
          ≡ some r)
        × (r.status ≡ failed)
        × (r.retry_count ≡ cache.config.max_retries))
add-fail_all_example =
    add-fail_all 0 5 6 (bytes "R2") (bytes "find") (bytes "t") (bytes "reset") [] failures cache
      refl

abbrev metadata_calls : List Call
metadata_calls =
    request 0 (bytes "10.0.0.1") (pos 6881) (bytes "h")
    ∷ piece (bytes "10.0.0.1") (pos 6881) (bytes "h") (pos 0) (bytes "d1")
    ∷ []

run-refuses_example :
    let p = run metadata_calls (init (record { request_timeout = 30_000 })) in
    (process_piece (bytes "10.0.0.1") (pos 6881) (bytes "h") (pos 0) (bytes "d1") p ≡ (p, false))
    × (is_complete (bytes "10.0.0.1") (pos 6881) (bytes "h") p ≡ false)
    × (assemble_metadata (bytes "10.0.0.1") (pos 6881) (bytes "h") p ≡ [])
run-refuses_example =
    run-refuses metadata_calls (record { request_timeout = 30_000 }) (bytes "10.0.0.1") (pos 6881)
      (bytes "h") (pos 0) (bytes "d1")

abbrev timeout : TimeoutInfo
timeout = record {
  id = bytes "t";
  duration = pos 1;
  expires_at = pos 1_000_000;
  callback = some 7;
  created_at = pos 0;
  status = dht_crawler.TimeoutManager.active;
}

abbrev timeouts : TimeoutManager
timeouts = record {
  config = record { cleanup_interval = 60_000 };
  active_timeouts = (bytes "t", timeout) ∷ [];
  expired_timeouts = [];
  monitor = started;
}

timeouts-IsOrdered : dht_crawler.TimeoutManager.Monitor.IsOrdered timeouts
timeouts-IsOrdered = record { active = (tt, tt); expired = tt }

is_waiting : lookup (bytes "t") timeouts.active_timeouts ≡ some timeout
unfolding lookup Bytes-discrete ℕ_discrete
is_waiting = refl

due_later : is_due (pos 2_000_000) timeout ≡ true
unfolding is_due
due_later = refl

check-fires_once_example :
    (fired (bytes "t") (check_expired_timeouts (pos 2_000_000) timeouts).1 ≡ 7 ∷ [])
    × (lookup (bytes "t") (check_expired_timeouts (pos 2_000_000) timeouts).0.expired_timeouts
        ≡ some timeout)
    × (fired
          (bytes "t")
          (check_expired_timeouts
            (pos 3_000_000)
            (check_expired_timeouts (pos 2_000_000) timeouts).0).1
        ≡ [])
check-fires_once_example =
    check-fires_once (pos 2_000_000) (pos 3_000_000) (bytes "t") timeout timeouts timeouts-IsOrdered
      is_waiting due_later

restart_stays_dead_example :
    let restarted =
      start (dht_crawler.TimeoutManager.monitor_round (pos 1) (pos 2) (stop timeouts)).0 in
    (is_running restarted ≡ true)
    × (rounds ((pos 2_000_000, pos 2_000_001) ∷ []) restarted ≡ (restarted, []))
restart_stays_dead_example =
    restart_stays_dead (pos 1) (pos 2) ((pos 2_000_000, pos 2_000_001) ∷ []) timeouts refl
