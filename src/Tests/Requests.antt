-- ===== src/Tests/Requests.antt =====
-- The queue, the downloader and the worker pool.
use dht_crawler.Base.{
  ℕ, ◌-◌, ◌≡◌, ◌≤◌, ◌⊎◌, refl, pos, List, [], ◌∷◌, some, none, true, false, Bytes, bytes, bytes_key,
  Bytes-discrete, lookup, length, max, contains, arith, ℕ_discrete,
}
use mathlib.Core.Path.{subst}
use dht_crawler.RequestQueue.{RequestQueue, QueueEntry, empty, enqueue, dequeue}
use dht_crawler.RequestQueue.Best.{Dequeued, dequeue-Dequeued}
use dht_crawler.RequestQueue.Validity.{has_hash, empty-IsValid, enqueue-IsValid}
use dht_crawler.RequestTracker.{RequestInfo, to_size_t, is_timed_out}
use dht_crawler.Downloader.{Downloader, init, goes_on, process_queue, cleanup_timed_out_requests}
use dht_crawler.Downloader.Loop.{process_queue_stops}
use dht_crawler.Downloader.Apart.{IsConsistent}
use dht_crawler.Downloader.Accounting.{Call, requests, receives, adjusts, fails, run}
use dht_crawler.Downloader.Limits.{process_queue-limit, cleanup-lookup}
use dht_crawler.WorkerPool.{WorkerPool, get_stats}
use dht_crawler.WorkerPool.Accounting.{
  Event, queues, takes, processes, IsBalanced, run-init-IsBalanced, received-get_stats,
}
use dht_crawler.Tests.{toy_libtorrent, hex_hash, base32_hash}

abbrev calls : List (ℕ × Call)
calls =
    (0, requests hex_hash (pos 5) (bytes "SEARCH"))
    ∷ (1, requests base32_hash (pos 7) (bytes "DHT"))
    ∷ (2, receives base32_hash)
    ∷ (3, requests (bytes "short") (pos 2) (bytes "DHT"))
    ∷ (4, adjusts)
    ∷ (5, fails)
    ∷ []

abbrev downloader : Downloader toy_libtorrent
downloader = run (init (some [])) calls

process_queue_stops_example :
    goes_on (
      process_queue 9 downloader,
      (process_queue 9 downloader).total_processed - downloader.total_processed,
    )
    ≡ false
process_queue_stops_example = process_queue_stops {lt = toy_libtorrent} 9 downloader

process_queue-limit_example :
    length (process_queue 9 downloader).active_tracker
    ≤ max (length downloader.active_tracker) (to_size_t downloader.max_concurrent_requests)
process_queue-limit_example = process_queue-limit {lt = toy_libtorrent} 9 downloader

abbrev running : RequestInfo Bytes
running = record { request_time = 3; priority = pos 5; source = bytes "SEARCH"; handle = hex_hash }

-- One request runs and one is queued.
abbrev busy : Downloader toy_libtorrent
busy = record {
  session = some [];
  active_tracker = (hex_hash, running) ∷ [];
  queue = enqueue 4 base32_hash (pos 7) (bytes "DHT") empty;
  max_concurrent_requests = pos 1000;
  request_timeout_seconds = pos 20;
  success_count = 0;
  failure_count = 0;
  timeout_count = 0;
  total_queued = 2;
  total_processed = 1;
}

has_no_other : (h : Bytes) → has_hash h busy.queue.queue ≡ true → base32_hash ≡ h
unfolding has_hash enqueue contains
has_no_other h queued = elim (Bytes-discrete base32_hash h) [
  | yes e ↦ e
  | no n ↦ absurd (ground (arith, n, queued))
]

is_free : lookup base32_hash busy.active_tracker ≡ none
unfolding lookup Bytes-discrete ℕ_discrete
is_free = refl

busy-IsConsistent : IsConsistent busy
busy-IsConsistent = record {
  queue_valid = enqueue-IsValid 4 base32_hash (pos 7) (bytes "DHT") empty empty-IsValid;
  apart =
      λ h queued. subst (λ k. lookup k busy.active_tracker ≡ none) (has_no_other h queued) is_free;
  idle = λ e. absurd cc;
}

is_running : lookup hex_hash busy.active_tracker ≡ some running
unfolding lookup Bytes-discrete ℕ_discrete
is_running = refl

late : is_timed_out 40_000_000_000 busy.request_timeout_seconds running ≡ true
unfolding is_timed_out
late = refl

cleanup-lookup_example :
    lookup hex_hash (cleanup_timed_out_requests 40_000_000_000 busy).active_tracker ≡ none
cleanup-lookup_example =
    cleanup-lookup {lt = toy_libtorrent} 40_000_000_000 hex_hash running busy busy-IsConsistent
      is_running late

abbrev queue : RequestQueue
queue =
    enqueue 1 base32_hash (pos 7) (bytes "DHT") (enqueue 0 hex_hash (pos 5) (bytes "SEARCH") empty)

dequeue-Dequeued_example :
    ((queue.queue ≡ []) × (dequeue queue ≡ none))
    ⊎ ((e : QueueEntry) × (q : RequestQueue) × (dequeue queue ≡ some (e, q)) × Dequeued queue e q)
dequeue-Dequeued_example = dequeue-Dequeued queue

abbrev events : List (ℕ × Event)
events =
    (0, queues hex_hash (pos 5) (bytes "DHT"))
    ∷ (1, queues base32_hash (pos 5) (bytes "DHT"))
    ∷ (2, takes 1)
    ∷ (3, takes 0)
    ∷ (4, processes 1)
    ∷ []

run-init-IsBalanced_example : IsBalanced (
    dht_crawler.WorkerPool.Accounting.run {lt = toy_libtorrent}
      (dht_crawler.WorkerPool.init {lt = toy_libtorrent} [] 2 (pos 30))
      events)
run-init-IsBalanced_example = run-init-IsBalanced {lt = toy_libtorrent} [] 2 (pos 30) events

abbrev pool : WorkerPool toy_libtorrent
pool = record (dht_crawler.WorkerPool.init {lt = toy_libtorrent} [] 2 (pos 30)) {
  pending_requests = (hex_hash, 4) ∷ [];
}

is_pending : lookup hex_hash pool.pending_requests ≡ some 4
unfolding lookup Bytes-discrete ℕ_discrete dht_crawler.WorkerPool.init
is_pending = refl
