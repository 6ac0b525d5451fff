-- ===== src/Downloader/Accounting.antt =====
-- No request is lost: each one is queued, was started, or was given up and counted as a failure. log_failure counts failures of its own.
use dht_crawler.Base.{
  ℕ, ◌+◌, ℤ, pos, ◌-ℤ◌, ◌≡◌, refl, List, [], ◌∷◌, ◌++◌, arith, Bool, true, false, Bytes, bytes,
  contains, bytes_key, length,
}
use dht_crawler.Libtorrent.{Libtorrent}
use dht_crawler.RequestQueue.{QueueEntry}
use dht_crawler.RequestQueue.Validity.{dequeue-Left, length-enqueue}
use dht_crawler.Downloader.{
  Downloader, log_success, log_failure, set_max_concurrent_requests, set_request_timeout,
  adjust_concurrent_limit, account, process_round, goes_on, process_queue, request_metadata,
  handle_metadata_received, cleanup_timed_out_requests,
}
use dht_crawler.Downloader.Loop.{Outcome, refused, started, process_round_cases, process_loop_inv}
use dht_crawler.Downloader.Apart.{IsConsistent, process_round-IsConsistent}

-- The calls that change a downloader.
pub data Call : Type 0 where
  requests : Bytes → ℤ → Bytes → Call
  receives : Bytes → Call
  cleans processes adjusts succeeds fails : Call
  limits times_out : ℤ → Call

-- The calls of log_failure in a history.
unfoldable pub logged : List (ℕ × Call) → ℕ
logged [] = 0
logged ((now, fails) ∷ cs) = logged cs + 1
logged ((now, _) ∷ cs) = logged cs

-- The failures that are logged once a call is made.
abbrev now_logged : ℕ → ℕ × Call → ℕ
now_logged n c = n + logged (c ∷ [])

module _ {lt : Libtorrent} where
  -- The requests that are queued, started or given up.
  abbrev pub accounted : Downloader lt → ℕ
  accounted d = length d.queue.queue + d.total_processed + d.failure_count

  account-accounted :
      (now n : ℕ) (x : QueueEntry) (d : Downloader lt) (o : Downloader lt × Bool)
      → contains x.hash d.queue.queue_set ≡ false
      → Outcome x d o
      → accounted (account now x n o).0 ≡ accounted d + 1
  unfolding account
  account-accounted now n x d _ gone (started s r) = omega arith
  account-accounted now n x d _ gone (refused s h) = ground (
    arith,
    length-enqueue now x.hash (x.priority -ℤ pos 1) (x.source ++ bytes "_RETRY") d.queue gone,
  )

  account-total_queued :
      (now n : ℕ) (x : QueueEntry) (d : Downloader lt) (o : Downloader lt × Bool)
      → Outcome x d o
      → (account now x n o).0.total_queued ≡ d.total_queued
  unfolding account
  account-total_queued now n x d _ (started s r) = refl
  account-total_queued now n x d _ (refused s h) = ground arith

  -- Every request that was ever queued is accounted for, where log_failure was called n times.
  pub record IsAccounted (n : ℕ) (d : Downloader lt) : Type 0 where
    pub consistent : IsConsistent d
    pub all : accounted d ≡ d.total_queued + n

  process_round-IsAccounted :
      (m : ℕ) (now : ℕ) (s : Downloader lt × ℕ)
      → goes_on s ≡ true
      → IsAccounted m s.0
      → IsAccounted m (process_round now s).0
  process_round-IsAccounted m now s on v = record {
    consistent = process_round-IsConsistent now s on v.consistent;
    all =
        process_round_cases (λ t. accounted t.0 ≡ t.0.total_queued + m) now s on
          λ x q o took out.
            let left = dequeue-Left s.0.queue x q v.consistent.queue_valid took in
            omega (
              arith,
              account-accounted now s.1 x (record s.0 { queue = q }) o left.gone out,
              account-total_queued now s.1 x (record s.0 { queue = q }) o out,
              left.size,
              v.all,
            );
  }

  -- process_queue neither loses a request nor makes one up, whatever libtorrent answers.
  pub process_queue-IsAccounted :
      (m : ℕ) (now : ℕ) (d : Downloader lt) → IsAccounted m d → IsAccounted m (process_queue now d)
  unfolding process_queue
  process_queue-IsAccounted m now d v =
      process_loop_inv (λ t. IsAccounted m t.0) now (process_round-IsAccounted m now) _ (d, 0) v

  unfoldable pub step : Downloader lt → ℕ × Call → Downloader lt
  step d (now, requests h p src) = (request_metadata now h p src d).0
  step d (now, receives h) = handle_metadata_received now h d
  step d (now, cleans) = cleanup_timed_out_requests now d
  step d (now, processes) = process_queue now d
  step d (now, adjusts) = adjust_concurrent_limit d
  step d (now, succeeds) = log_success d
  step d (now, fails) = log_failure d
  step d (now, limits n) = set_max_concurrent_requests n d
  step d (now, times_out n) = set_request_timeout n d

  unfoldable pub run : Downloader lt → List (ℕ × Call) → Downloader lt
  run d [] = d
  run d (c ∷ cs) = run (step d c) cs
