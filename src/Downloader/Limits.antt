-- ===== src/Downloader/Limits.antt =====
-- How many requests run, and which requests process_queue leaves alone.
use dht_crawler.Base.{
  ℕ, ◌≤◌, ◌<◌, max, ℤ, pos, ◌-ℤ◌, ltb_ℤ, ◌≡◌, ◌≢◌, refl, ap, ◌∙◌, inl, inr, none, some, List, [],
  ◌∷◌, ◌++◌, arith, Bool, true, false, Bytes, bytes, bytes_key, Bytes-discrete, lookup,
  length-insert-le, lookup-insert, lookup-erase, Bool-cases, length, ltb,
}
use dht_crawler.Libtorrent.{Libtorrent}
use dht_crawler.RequestQueue.{QueueEntry}
use dht_crawler.RequestQueue.Validity.{has_hash, dequeue-Left, has_hash-enqueue}
use dht_crawler.RequestTracker.{
  RequestInfo, Tracker, remove_request, get_timed_out_requests, is_timed_out, to_size_t,
}
use dht_crawler.Downloader.{
  Downloader, account, process_round, goes_on, process_queue, handle_metadata_received,
  drop_request, drop_requests, cleanup_timed_out_requests,
}
use dht_crawler.Downloader.Loop.{Outcome, refused, started, process_round_cases, process_loop_inv}
use dht_crawler.Downloader.Apart.{
  IsConsistent, process_round-IsConsistent, drop_requests-IsConsistent, received-IsConsistent,
}

module _ {lt : Libtorrent} where
  record IsWithin (bound : ℕ) (limit : ℤ) (d : Downloader lt) : Type 0 where
    same_limit : d.max_concurrent_requests ≡ limit
    within : length d.active_tracker ≤ bound

  account-IsWithin :
      (bound : ℕ) (limit : ℤ) (now n : ℕ) (x : QueueEntry) (d : Downloader lt)
      (o : Downloader lt × Bool)
      → Outcome x d o
      → d.max_concurrent_requests ≡ limit
      → length d.active_tracker < bound
      → IsWithin bound limit (account now x n o).0
  unfolding account
  account-IsWithin bound limit now n x d _ (started s r) m h = record {
    same_limit = m;
    within = omega (arith, length-insert-le x.hash r d.active_tracker);
  }
  account-IsWithin bound limit now n x d _ (refused s e) m h =
      elim (Bool-cases (ltb_ℤ (pos 1) x.priority)) [
        | inl again ↦ rw (again, account) (record { same_limit = m; within = omega arith })
        | inr last ↦ rw (last, account) (record { same_limit = m; within = omega arith })
      ]

  goes_on-room :
      (s : Downloader lt × ℕ) (limit : ℤ)
      → goes_on s ≡ true
      → s.0.max_concurrent_requests ≡ limit
      → length s.0.active_tracker < to_size_t limit
  unfolding goes_on
  goes_on-room s limit on e = ground arith

  -- process_queue starts no request beyond the limit. Where more run already, it starts none.
  pub process_queue-limit :
      (now : ℕ) (d : Downloader lt)
      → length (process_queue now d).active_tracker
        ≤ max (length d.active_tracker) (to_size_t d.max_concurrent_requests)
  unfolding process_queue
  process_queue-limit now d =
      (process_loop_inv (λ t. IsWithin bound limit t.0) now keep _ (d, 0)
        (record { same_limit = refl; within = omega arith })).within
    where
      limit : ℤ
      limit = d.max_concurrent_requests

      bound : ℕ
      bound = max (length d.active_tracker) (to_size_t limit)

      keep :
          (s : Downloader lt × ℕ)
          → goes_on s ≡ true
          → IsWithin bound limit s.0
          → IsWithin bound limit (process_round now s).0
      keep s on v =
          process_round_cases (λ t. IsWithin bound limit t.0) now s on
            λ x q o took out.
              account-IsWithin bound limit now s.1 x (record s.0 { queue = q }) o out v.same_limit
                (omega (arith, goes_on-room s limit on v.same_limit))

  -- Nor does it touch a request that is not queued.
  record Keeps (h : Bytes) (d e : Downloader lt) : Type 0 where
    consistent : IsConsistent e
    not_queued : has_hash h e.queue.queue ≡ false
    same : lookup h e.active_tracker ≡ lookup h d.active_tracker

  account-lookup :
      (h : Bytes) (now n : ℕ) (x : QueueEntry) (d : Downloader lt) (o : Downloader lt × Bool)
      → IsConsistent d
      → has_hash h d.queue.queue ≡ false
      → x.hash ≢ h
      → Outcome x d o
      → (has_hash h (account now x n o).0.queue.queue ≡ false)
        × (lookup h (account now x n o).0.active_tracker ≡ lookup h d.active_tracker)
  unfolding account
  account-lookup h now n x d _ v nq other (started s r) =
      (nq, ground (arith, lookup-insert x.hash h r d.active_tracker))
  account-lookup h now n x d _ v nq other (refused s e) =
      let src = x.source ++ bytes "_RETRY" in
      let queued = has_hash-enqueue now x.hash h (x.priority -ℤ pos 1) src d.queue v.queue_valid in
      elim (Bool-cases (ltb_ℤ (pos 1) x.priority)) [
        | inl again ↦ rw (again, account) (ground (arith, queued), refl)
        | inr last ↦ rw (last, account) (nq, refl)
      ]

  process_round-Keeps :
      (h : Bytes) (d : Downloader lt) (now : ℕ) (s : Downloader lt × ℕ)
      → goes_on s ≡ true
      → Keeps h d s.0
      → Keeps h d (process_round now s).0
  process_round-Keeps h d now s on k = record {
    consistent = process_round-IsConsistent now s on k.consistent;
    not_queued = both.0;
    same = both.1 ∙ k.same;
  }
    where
      both :
          (has_hash h (process_round now s).0.queue.queue ≡ false)
          × (lookup h (process_round now s).0.active_tracker ≡ lookup h s.0.active_tracker)
      both =
          process_round_cases
            (λ t.
              (has_hash h t.0.queue.queue ≡ false)
              × (lookup h t.0.active_tracker ≡ lookup h s.0.active_tracker))
            now s on
            λ x q o took out.
              let left = dequeue-Left s.0.queue x q k.consistent.queue_valid took in
              account-lookup h now s.1 x (record s.0 { queue = q }) o
                (record {
                  queue_valid = left.valid;
                  apart = λ j queued. ground (arith, left.others j, k.consistent.apart j);
                  idle = λ e. absurd (ground (arith, k.consistent.idle e, left.size));
                })
                (ground (arith, left.others h, k.not_queued))
                (λ e.
                  absurd (
                    ground (arith, left.was, k.not_queued, ap (λ j. has_hash j s.0.queue.queue) e)))
                out

  -- process_queue leaves a hash alone that is not queued.
  pub process_queue-lookup :
      (h : Bytes) (now : ℕ) (d : Downloader lt)
      → IsConsistent d
      → has_hash h d.queue.queue ≡ false
      → lookup h (process_queue now d).active_tracker ≡ lookup h d.active_tracker
  unfolding process_queue
  process_queue-lookup h now d v nq =
      (process_loop_inv (λ t. Keeps h d t.0) now (process_round-Keeps h d now) _ (d, 0)
        (record { consistent = v; not_queued = nq; same = refl })).same

  not_queued_of_active :
      (h : Bytes) (r : RequestInfo lt.Handle) (d : Downloader lt)
      → IsConsistent d
      → lookup h d.active_tracker ≡ some r
      → has_hash h d.queue.queue ≡ false
  not_queued_of_active h r d v e = ground (arith, v.apart h)

  -- When a request's metadata arrives, the request leaves the tracker and does not come back.
  pub handle_metadata_received-lookup :
      (now : ℕ) (h : Bytes) (r : RequestInfo lt.Handle) (d : Downloader lt)
      → IsConsistent d
      → lookup h d.active_tracker ≡ some r
      → lookup h (handle_metadata_received now h d).active_tracker ≡ none
  unfolding handle_metadata_received remove_request
  handle_metadata_received-lookup now h r d v e =
      process_queue-lookup h now _ (received-IsConsistent h v) (not_queued_of_active h r d v e)
      ∙ ground (arith, lookup-erase h h d.active_tracker)

  drop_requests-none :
      (h : Bytes) (hs : List Bytes) (d : Downloader lt)
      → lookup h d.active_tracker ≡ none
      → lookup h (drop_requests hs d).active_tracker ≡ none
  unfolding drop_requests drop_request remove_request
  drop_requests-none h [] d e = e
  drop_requests-none h (k ∷ hs) d e =
      drop_requests-none h hs (drop_request k d) (ground (arith, lookup-erase k h d.active_tracker))

  drop_requests-queue : (hs : List Bytes) (d : Downloader lt) → (drop_requests hs d).queue ≡ d.queue
  unfolding drop_requests drop_request
  drop_requests-queue [] d = refl
  drop_requests-queue (k ∷ hs) d = drop_requests-queue hs (drop_request k d)

  -- The tracker's timed-out requests are those that the loop drops.
  drop_timed_out :
      (h : Bytes) (now : ℕ) (t : ℤ) (m : Tracker lt.Handle) (r : RequestInfo lt.Handle)
      (d : Downloader lt)
      → lookup h m ≡ some r
      → is_timed_out now t r ≡ true
      → (0 < length (get_timed_out_requests now t m))
        × (lookup h (drop_requests (get_timed_out_requests now t m) d).active_tracker ≡ none)
  unfolding lookup get_timed_out_requests drop_requests drop_request remove_request
  drop_timed_out h now t [] r d e late = absurd (ground arith)
  drop_timed_out h now t ((k, r') ∷ m) r d e late = elim (Bytes-discrete k h) [
    | yes same ↦
        let late' : is_timed_out now t r' ≡ true = ground arith in
        rw late' (
          omega arith,
          drop_requests-none h (get_timed_out_requests now t m) (drop_request k d)
              (ground (arith, lookup-erase k h d.active_tracker)),
        )
    | no other ↦
        let e' : lookup h m ≡ some r = ground arith in
        elim (Bool-cases (is_timed_out now t r')) [
          | inl b ↦ rw b (omega arith, (drop_timed_out h now t m r (drop_request k d) e' late).1)
          | inr b ↦ rw b (drop_timed_out h now t m r d e' late)
        ]
  ]

  -- In a consistent downloader, a request that has timed out is gone after the cleanup, and the queue
  -- that the cleanup processes does not bring it back.
  pub cleanup-lookup :
      (now : ℕ) (h : Bytes) (r : RequestInfo lt.Handle) (d : Downloader lt)
      → IsConsistent d
      → lookup h d.active_tracker ≡ some r
      → is_timed_out now d.request_timeout_seconds r ≡ true
      → lookup h (cleanup_timed_out_requests now d).active_tracker ≡ none
  unfolding cleanup_timed_out_requests
  cleanup-lookup now h r d v e late =
      let hs = get_timed_out_requests now d.request_timeout_seconds d.active_tracker in
      let gone = drop_timed_out h now d.request_timeout_seconds d.active_tracker r d e late in
      let some_late : ltb 0 (length hs) ≡ true = ground (arith, gone.0) in
      rw some_late (
        process_queue-lookup h now (drop_requests hs d) (drop_requests-IsConsistent hs d v)
          (rw (drop_requests-queue hs d) (not_queued_of_active h r d v e))
        ∙ gone.1)
