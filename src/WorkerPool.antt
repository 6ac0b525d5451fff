-- ===== src/WorkerPool.antt =====
-- MetadataWorkerPool of src/metadata_worker_pool.hpp: a queue of requests, worker threads that take
-- them, and the table of pending requests. Each mutex makes a block one step, so a run of the pool
-- is a sequence of events in any order: calls of the main loop, the push of a queue_request whose
-- test was passed before, a worker that takes a request, and a worker that processes the one it
-- holds, which is one step here. The table of pending requests is an unordered_map in the source:
-- only the order of the hashes that time out shows it, and no count depends on that. An instant is a number of nanoseconds on the steady
-- clock. The log is left out, and the counters do not overflow.
pub mod Accounting
use dht_crawler.Base.{
  ℕ, zero, suc, ◌+◌, ◌-◌, ◌*◌, ℤ, pos, pos_part, neg_part, ltb_ℤ, List, [], ◌∷◌, ◌++◌, Option, none,
  some, Bool, true, false, ◌||◌, Bytes, bytes_key, StdMap, lookup, insert, erase, length, modify,
  ltb, ◌==◌, if◌then◌else◌,
}
use dht_crawler.Libtorrent.{Libtorrent, start_torrent}

pub record MetadataRequest : Type 0 where
  pub info_hash : Bytes
  pub priority : ℤ
  pub source : Bytes
  pub queued_time : ℕ

pub record WorkerStats : Type 0 where
  pub requests_processed : ℕ
  pub requests_successful : ℕ
  pub requests_failed : ℕ
  pub requests_timeout : ℕ

-- A worker's statistics, and the request that its thread holds between its two blocks.
pub record Worker : Type 0 where
  pub stats : WorkerStats
  pub held : Option MetadataRequest

pub record WorkerPool (lt : Libtorrent) : Type 0 where
  pub session : lt.Session
  pub shutdown : Bool
  pub request_queue : List MetadataRequest
  pub pending_requests : StdMap Bytes ℕ
  pub workers : List Worker
  pub total_queued : ℕ
  pub total_processed : ℕ
  pub request_timeout_seconds : ℤ

-- The pool's own conversion: a base32 hash is taken for hex.
unfoldable pub convert_hash_to_hex : Bytes → Bytes
convert_hash_to_hex hash =
    if length hash == 40 then hash else if length hash == 32 then hash else []

unfoldable pub every {ℓ} : {A : Type ℓ} → (A → A) → List A → List A
every f [] = []
every f (x ∷ xs) = f x ∷ every f xs

unfoldable pub held_by : ℕ → List Worker → Option MetadataRequest
held_by i [] = none
held_by zero (w ∷ ws) = w.held
held_by (suc i) (w ∷ ws) = held_by i ws

abbrev pub hold : Option MetadataRequest → Worker → Worker
hold r w = record w { held = r }

-- The counters of a worker; the first two also end its hold on the request.
abbrev pub fail : Worker → Worker
fail w = record w {
  held = none;
  stats = record (w.stats) { requests_failed = w.stats.requests_failed + 1 };
}

abbrev pub process : Worker → Worker
process w = record w {
  held = none;
  stats = record (w.stats) { requests_processed = w.stats.requests_processed + 1 };
}

abbrev pub succeed : Worker → Worker
succeed w = record w {
  stats = record (w.stats) { requests_successful = w.stats.requests_successful + 1 };
}

abbrev pub time_out : Worker → Worker
time_out w = record w {
  stats = record (w.stats) { requests_timeout = w.stats.requests_timeout + 1 };
}

abbrev pub idle_worker : Worker
idle_worker = record {
  stats = record {
    requests_processed = 0;
    requests_successful = 0;
    requests_failed = 0;
    requests_timeout = 0;
  };
  held = none;
}

abbrev pub idle_workers : ℕ → List Worker
idle_workers zero = []
idle_workers (suc n) = idle_worker ∷ idle_workers n

-- now - queued > seconds(timeout).
unfoldable pub is_timed_out : ℕ → ℤ → ℕ → Bool
is_timed_out now timeout queued =
    ltb (queued + pos_part timeout * 1_000_000_000) (now + neg_part timeout * 1_000_000_000)

-- get_timed_out_requests: the hashes that time out, and the table without them.
unfoldable pub split_timed_out : ℕ → ℤ → StdMap Bytes ℕ → List Bytes × StdMap Bytes ℕ
split_timed_out now timeout [] = ([], [])
split_timed_out now timeout ((hash, queued) ∷ m) =
    let (late, kept) = split_timed_out now timeout m in
    if is_timed_out now timeout queued then (hash ∷ late, kept) else (late, (hash, queued) ∷ kept)

-- The loop of cleanup_timeouts over the hashes that timed out.
unfoldable pub count_timeouts : List Bytes → List Worker → List Worker
count_timeouts [] ws = ws
count_timeouts (hash ∷ hashes) ws = count_timeouts hashes (every time_out ws)

-- A statistic summed over the workers.
unfoldable pub sum_of : (WorkerStats → ℕ) → List Worker → ℕ
sum_of f [] = 0
sum_of f (w ∷ ws) = f w.stats + sum_of f ws

-- What get_stats reports.
pub record PoolStats : Type 0 where
  pub queued : ℕ
  pub processed : ℕ
  pub successful : ℕ
  pub failed : ℕ
  pub timed_out : ℕ

module _ {lt : Libtorrent} where
  unfoldable pub init : lt.Session → ℕ → ℤ → WorkerPool lt
  init session num_workers request_timeout = record {
    session = session;
    shutdown = false;
    request_queue = [];
    pending_requests = [];
    workers = idle_workers num_workers;
    total_queued = 0;
    total_processed = 0;
    request_timeout_seconds = request_timeout;
  }

  -- The second block of queue_request.
  unfoldable pub push_request : ℕ → Bytes → ℤ → Bytes → WorkerPool lt → WorkerPool lt
  push_request now info_hash priority source p = record p {
    request_queue =
        p.request_queue
        ++ record { info_hash = info_hash; priority = priority; source = source; queued_time = now }
          ∷ [];
    total_queued = p.total_queued + 1;
  }

  -- With no other thread between its two blocks.
  unfoldable pub queue_request : ℕ → Bytes → ℤ → Bytes → WorkerPool lt → WorkerPool lt × Bool
  queue_request now info_hash priority source p =
      if p.shutdown then (p, false) else elim (lookup info_hash p.pending_requests) [
        | some _ ↦ (p, true)
        | none ↦ (push_request now info_hash priority source p, true)
      ]

  -- The first block of worker_thread: a worker that holds nothing takes the front of the queue.
  unfoldable pub take_request : ℕ → WorkerPool lt → WorkerPool lt
  take_request i p =
      if p.shutdown || ltb (length p.workers) (suc i) then p else elim (held_by i p.workers) [
        | some _ ↦ p
        | none ↦ elim p.request_queue [
          | [] ↦ p
          | r ∷ rs ↦ record p { request_queue = rs; workers = modify i (hold (some r)) p.workers }
        ]
      ]

  -- process_metadata_request behind the conversion of the hash.
  unfoldable pub add_to_session : ℕ → ℕ → MetadataRequest → Bytes → WorkerPool lt → WorkerPool lt
  add_to_session now i r hex_hash p =
      let (s', result) = start_torrent lt p.session hex_hash in
      elim result [
        | none ↦ record p { session = s'; workers = modify i fail p.workers }
        | some _ ↦ record p {
          session = s';
          pending_requests = insert r.info_hash now p.pending_requests;
          workers = modify i process p.workers;
          total_processed = p.total_processed + 1;
        }
      ]

  -- process_metadata_request of the request that worker i holds.
  unfoldable pub process_metadata_request : ℕ → ℕ → WorkerPool lt → WorkerPool lt
  process_metadata_request now i p = elim (held_by i p.workers) [
    | none ↦ p
    | some r ↦ elim (convert_hash_to_hex r.info_hash) [
      | [] ↦ record p { workers = modify i fail p.workers }
      | c ∷ cs ↦ add_to_session now i r (c ∷ cs) p
    ]
  ]

  unfoldable pub handle_metadata_received : Bytes → WorkerPool lt → WorkerPool lt
  handle_metadata_received info_hash p = elim (lookup info_hash p.pending_requests) [
    | none ↦ p
    | some _ ↦ record p {
      pending_requests = erase info_hash p.pending_requests;
      workers = every succeed p.workers;
    }
  ]

  unfoldable pub cleanup_timeouts : ℕ → WorkerPool lt → WorkerPool lt
  cleanup_timeouts now p =
      let (late, kept) = split_timed_out now p.request_timeout_seconds p.pending_requests in
      record p { pending_requests = kept; workers = count_timeouts late p.workers }

  -- The flag that stops the workers. A worker that holds a request still processes it.
  unfoldable pub begin_shutdown : WorkerPool lt → WorkerPool lt
  begin_shutdown p = record p { shutdown = true }

  -- The end of shutdown, behind the joins: no worker holds a request.
  unfoldable pub end_shutdown : WorkerPool lt → WorkerPool lt
  end_shutdown p = record p { pending_requests = [] }

  unfoldable pub get_stats : WorkerPool lt → PoolStats
  get_stats p = record {
    queued = p.total_queued;
    processed = p.total_processed;
    successful = sum_of (λ s. s.requests_successful) p.workers;
    failed = sum_of (λ s. s.requests_failed) p.workers;
    timed_out = sum_of (λ s. s.requests_timeout) p.workers;
  }
