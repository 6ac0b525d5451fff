-- ===== src/Downloader/Apart.antt =====
-- A hash is queued or in progress, never both, and a downloader without a session stays idle.
use dht_crawler.Base.{
  ℕ, ◌+◌, ℤ, pos, ◌-ℤ◌, ltb_ℤ, ◌≡◌, ◌≢◌, refl, inl, inr, Option, none, some, List, [], ◌∷◌, ◌++◌,
  arith, Bool, true, false, Bytes, bytes, bytes_key, lookup, erase, lookup-insert, lookup-erase,
  Bool-cases, Option-cases, length, ltb,
}
use dht_crawler.Libtorrent.{Libtorrent}
use dht_crawler.RequestQueue.{RequestQueue, QueueEntry, enqueue, is_queued}
use dht_crawler.RequestQueue.Best.{Dequeued}
use dht_crawler.RequestQueue.Validity
use dht_crawler.RequestQueue.Validity.{
  has_hash, enqueue-IsValid, has_hash-enqueue, dequeue-Left, Left, empty-IsValid,
}
use dht_crawler.RequestTracker.{remove_request, has_request, get_timed_out_requests}
use dht_crawler.Downloader.{
  Downloader, init, account, process_round, goes_on, process_queue, request_metadata,
  handle_metadata_received, drop_torrent, drop_request, drop_requests, cleanup_timed_out_requests,
}
use dht_crawler.Downloader.Loop.{Outcome, refused, started, process_round_cases, process_loop_inv}

pub record IsConsistent {lt : Libtorrent} (d : Downloader lt) : Type 0 where
  pub queue_valid : Validity.IsValid d.queue
  pub apart : (h : Bytes) → has_hash h d.queue.queue ≡ true → lookup h d.active_tracker ≡ none
  pub idle : d.session ≡ none → d.queue.queue ≡ []

module _ {lt : Libtorrent} where
  -- Between dequeue and the answer of libtorrent: the entry is in neither place.
  record Pending (x : QueueEntry) (d : Downloader lt) : Type 0 where
    consistent : IsConsistent d
    gone : has_hash x.hash d.queue.queue ≡ false
    free : lookup x.hash d.active_tracker ≡ none
    awake : d.session ≢ none

  pending :
      (d : Downloader lt) (x : QueueEntry) (q : RequestQueue)
      → IsConsistent d
      → Dequeued d.queue x q
      → Pending x (record d { queue = q })
  pending d x q v took = record {
    consistent = record {
      queue_valid = left.valid;
      apart = λ h queued. ground (arith, left.others h, v.apart h);
      idle = λ e. absurd (awake e);
    };
    gone = ground (arith, left.others x.hash);
    free = v.apart x.hash left.was;
    awake = awake;
  }
    where
      left : Left d.queue x q
      left = dequeue-Left d.queue x q v.queue_valid took

      awake : d.session ≢ none
      awake e = absurd (ground (arith, v.idle e, left.size))

  enqueue_free :
      (now : ℕ) (h : Bytes) (p : ℤ) (src : Bytes) {d : Downloader lt}
      → IsConsistent d
      → lookup h d.active_tracker ≡ none
      → d.session ≢ none
      → IsConsistent (record d { queue = enqueue now h p src d.queue })
  enqueue_free now h p src {d} v free awake = record {
    queue_valid = enqueue-IsValid now h p src d.queue v.queue_valid;
    apart =
        λ k queued. ground (arith, v.apart k, has_hash-enqueue now h k p src d.queue v.queue_valid);
    idle = λ e. absurd (awake e);
  }

  account-IsConsistent :
      (now n : ℕ) (x : QueueEntry) (d : Downloader lt) (o : Downloader lt × Bool)
      → Pending x d
      → Outcome x d o
      → IsConsistent (account now x n o).0
  unfolding account
  account-IsConsistent now n x d _ p (started s r) = record {
    queue_valid = p.consistent.queue_valid;
    apart = λ h queued.
        ground
          (arith, p.consistent.apart h queued, p.gone, lookup-insert x.hash h r d.active_tracker);
    idle = λ e. absurd (ground arith);
  }
  account-IsConsistent now n x d _ p (refused s h) = elim (Bool-cases (ltb_ℤ (pos 1) x.priority)) [
    | inl again ↦
        rw (again, account)
          (enqueue_free now x.hash (x.priority -ℤ pos 1) (x.source ++ bytes "_RETRY") base p.free
            (λ e. p.awake (h e)))
    | inr last ↦
        rw (last, account)
          (record { queue_valid = v.queue_valid; apart = v.apart; idle = base.idle })
  ]
    where
      v : IsConsistent d
      v = p.consistent

      base : IsConsistent (record d { session = s })
      base = record { queue_valid = v.queue_valid; apart = v.apart; idle = λ e. v.idle (h e) }

  pub process_round-IsConsistent :
      (now : ℕ) (s : Downloader lt × ℕ)
      → goes_on s ≡ true
      → IsConsistent s.0
      → IsConsistent (process_round now s).0
  process_round-IsConsistent now s on v =
      process_round_cases (λ t. IsConsistent t.0) now s on
        λ x q o took out.
          account-IsConsistent now s.1 x (record s.0 { queue = q }) o (pending s.0 x q v took) out

  pub process_queue-IsConsistent :
      (now : ℕ) (d : Downloader lt) → IsConsistent d → IsConsistent (process_queue now d)
  unfolding process_queue
  process_queue-IsConsistent now d v =
      process_loop_inv (λ t. IsConsistent t.0) now (process_round-IsConsistent now) _ (d, 0) v

  pub init-IsConsistent : (s : Option lt.Session) → IsConsistent (init {lt = lt} s)
  unfolding init has_hash
  init-IsConsistent s = record { queue_valid = empty-IsValid; apart = λ h e. cc; idle = λ e. refl }

  -- A new request in the queue, before the queue is processed.
  abbrev pub added : ℕ → Bytes → ℤ → Bytes → Downloader lt → Downloader lt
  added now h p src d = record d {
    queue = enqueue now h p src d.queue;
    total_queued = d.total_queued + 1;
  }

  -- request_metadata leaves things as they are, or adds a hash that is in neither place.
  pub request_metadata_cases {ℓ} :
      (P : Downloader lt → Type ℓ) (now : ℕ) (h : Bytes) (p : ℤ) (src : Bytes) (d : Downloader lt)
      → P d
      → (d.session ≢ none
          → lookup h d.active_tracker ≡ none
          → is_queued h d.queue ≡ false
          → P (process_queue now (added now h p src d)))
      → P (request_metadata now h p src d).0
  unfolding request_metadata has_request
  request_metadata_cases P now h p src d same new = by_session d.session refl
    where
      by_session : (s : Option lt.Session) → d.session ≡ s → P (request_metadata now h p src d).0
      by_session none e = rw (e, request_metadata) same
      by_session (some s) e = elim (Option-cases (lookup h d.active_tracker)) [
        | inl f ↦ elim (Bool-cases (is_queued h d.queue)) [
          | inl queued ↦ rw (e, request_metadata, f, has_request, queued) same
          | inr fresh ↦
              rw (e, request_metadata, f, has_request, fresh)
                (new (λ none_e. absurd (ground arith)) f fresh)
        ]
        | inr (r, f) ↦ rw (e, request_metadata, f, has_request) same
      ]

  pub added-IsConsistent :
      (now : ℕ) (h : Bytes) (p : ℤ) (src : Bytes) {d : Downloader lt}
      → IsConsistent d
      → d.session ≢ none
      → lookup h d.active_tracker ≡ none
      → IsConsistent (added now h p src d)
  added-IsConsistent now h p src v awake free =
      let queued = enqueue_free now h p src v free awake in
      record { queue_valid = queued.queue_valid; apart = queued.apart; idle = queued.idle }

  -- Requesting a hash keeps the downloader consistent.
  pub request_metadata-IsConsistent :
      (now : ℕ) (h : Bytes) (p : ℤ) (src : Bytes) (d : Downloader lt)
      → IsConsistent d
      → IsConsistent (request_metadata now h p src d).0
  request_metadata-IsConsistent now h p src d v =
      request_metadata_cases IsConsistent now h p src d v λ awake free fresh.
        process_queue-IsConsistent now _ (added-IsConsistent now h p src v awake free)

  erase_tracker :
      (h : Bytes) {d : Downloader lt}
      → IsConsistent d
      → (k : Bytes) → has_hash k d.queue.queue ≡ true
      → lookup k (erase h d.active_tracker) ≡ none
  erase_tracker h {d} v k queued =
      ground (arith, v.apart k queued, lookup-erase h k d.active_tracker)

  pub received-IsConsistent :
      (h : Bytes) {d : Downloader lt}
      → IsConsistent d
      → IsConsistent (record d {
        active_tracker = erase h d.active_tracker;
        success_count = d.success_count + 1;
      })
  received-IsConsistent h v = record {
    queue_valid = v.queue_valid;
    apart = erase_tracker h v;
    idle = v.idle;
  }

  -- So does the arrival of a hash's metadata.
  pub handle_metadata_received-IsConsistent :
      (now : ℕ) (h : Bytes) (d : Downloader lt)
      → IsConsistent d
      → IsConsistent (handle_metadata_received now h d)
  unfolding handle_metadata_received remove_request
  handle_metadata_received-IsConsistent now h d v =
      process_queue-IsConsistent now _ (received-IsConsistent h v)

  drop_torrent_awake : (h : Bytes) (d : Downloader lt) → drop_torrent h d ≡ none → d.session ≡ none
  unfolding drop_torrent
  drop_torrent_awake h d e = ground arith

  pub drop_requests-IsConsistent :
      (hs : List Bytes) (d : Downloader lt) → IsConsistent d → IsConsistent (drop_requests hs d)
  unfolding drop_requests drop_request remove_request
  drop_requests-IsConsistent [] d v = v
  drop_requests-IsConsistent (h ∷ hs) d v =
      drop_requests-IsConsistent hs (drop_request h d) (record {
        queue_valid = v.queue_valid;
        apart = erase_tracker h v;
        idle = λ e. v.idle (drop_torrent_awake h d e);
      })

  -- So does the removal of timed-out requests.
  pub cleanup-IsConsistent :
      (now : ℕ) (d : Downloader lt)
      → IsConsistent d
      → IsConsistent (cleanup_timed_out_requests now d)
  unfolding cleanup_timed_out_requests
  cleanup-IsConsistent now d v =
      let timed_out = get_timed_out_requests now d.request_timeout_seconds d.active_tracker in
      let dropped = drop_requests-IsConsistent timed_out d v in
      elim (Bool-cases (ltb 0 (length timed_out))) [
        | inl any ↦ rw any (process_queue-IsConsistent now _ dropped)
        | inr zero' ↦ rw zero' dropped
      ]
