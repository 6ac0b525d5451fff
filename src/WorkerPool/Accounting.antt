-- ===== src/WorkerPool/Accounting.antt =====
-- The pool under every interleaving of its threads.
use dht_crawler.Base.{
  ℕ, zero, suc, ◌+◌, ◌<◌, ℤ, ◌≡◌, refl, ◌∙◌, inl, inr, List, [], ◌∷◌, Option, none, some, Bytes,
  bytes_key, lookup, arith, length, modify, length-append, Option-cases,
}
use dht_crawler.Libtorrent.{Libtorrent, start_torrent}
use dht_crawler.WorkerPool.{
  MetadataRequest, Worker, WorkerPool, convert_hash_to_hex, every, held_by, hold, fail, process,
  succeed, time_out, idle_workers, sum_of, init, push_request, queue_request, take_request,
  add_to_session, process_metadata_request, handle_metadata_received, count_timeouts,
  split_timed_out, cleanup_timeouts, begin_shutdown, end_shutdown, get_stats,
}

-- 1 for a worker that holds a request.
abbrev pub in_hand : Option MetadataRequest → ℕ
in_hand none = 0
in_hand (some r) = 1

-- The requests that the workers have taken: held, processed or failed.
unfoldable pub taken : List Worker → ℕ
taken [] = 0
taken (w ∷ ws) = in_hand w.held + w.stats.requests_processed + w.stats.requests_failed + taken ws

abbrev pub processed_by : List Worker → ℕ
processed_by = sum_of (λ s. s.requests_processed)

taken-hold :
    (i : ℕ) (r : MetadataRequest) (ws : List Worker)
    → held_by i ws ≡ none
    → i < length ws
    → taken (modify i (hold (some r)) ws) ≡ taken ws + 1
unfolding taken modify held_by
taken-hold i r [] e h = absurd (omega arith)
taken-hold zero r (w ∷ ws) e h = ground arith
taken-hold (suc i) r (w ∷ ws) e h = omega (arith, taken-hold i r ws e (omega arith))

taken-fail :
    (i : ℕ) (r : MetadataRequest) (ws : List Worker)
    → held_by i ws ≡ some r
    → taken (modify i fail ws) ≡ taken ws
unfolding taken modify held_by
taken-fail i r [] e = absurd (ground arith)
taken-fail zero r (w ∷ ws) e = ground arith
taken-fail (suc i) r (w ∷ ws) e = omega (arith, taken-fail i r ws e)

taken-process :
    (i : ℕ) (r : MetadataRequest) (ws : List Worker)
    → held_by i ws ≡ some r
    → (taken (modify i process ws) ≡ taken ws)
      × (processed_by (modify i process ws) ≡ processed_by ws + 1)
unfolding taken modify held_by sum_of
taken-process i r [] e = absurd (ground arith)
taken-process zero r (w ∷ ws) e = ground arith
taken-process (suc i) r (w ∷ ws) e =
    let ih = taken-process i r ws e in (omega (arith, ih.0), omega (arith, ih.1))

processed_by-hold :
    (i : ℕ) (o : Option MetadataRequest) (ws : List Worker)
    → processed_by (modify i (hold o) ws) ≡ processed_by ws
unfolding modify sum_of
processed_by-hold i o [] = refl
processed_by-hold zero o (w ∷ ws) = refl
processed_by-hold (suc i) o (w ∷ ws) = omega (arith, processed_by-hold i o ws)

processed_by-fail : (i : ℕ) (ws : List Worker) → processed_by (modify i fail ws) ≡ processed_by ws
unfolding modify sum_of
processed_by-fail i [] = refl
processed_by-fail zero (w ∷ ws) = refl
processed_by-fail (suc i) (w ∷ ws) = omega (arith, processed_by-fail i ws)

every-succeed :
    (ws : List Worker)
    → (taken (every succeed ws) ≡ taken ws)
      × (processed_by (every succeed ws) ≡ processed_by ws)
      × (sum_of (λ s. s.requests_successful) (every succeed ws)
          ≡ sum_of (λ s. s.requests_successful) ws + length ws)
unfolding taken every sum_of
every-succeed [] = (refl, refl, omega arith)
every-succeed (w ∷ ws) =
    let ih = every-succeed ws in (omega (arith, ih.0), omega (arith, ih.1), omega (arith, ih.2))

every-time_out :
    (ws : List Worker)
    → (taken (every time_out ws) ≡ taken ws) × (processed_by (every time_out ws) ≡ processed_by ws)
unfolding taken every sum_of
every-time_out [] = (refl, refl)
every-time_out (w ∷ ws) = let ih = every-time_out ws in (omega (arith, ih.0), omega (arith, ih.1))

count_timeouts_same :
    (hs : List Bytes) (ws : List Worker)
    → (taken (count_timeouts hs ws) ≡ taken ws)
      × (processed_by (count_timeouts hs ws) ≡ processed_by ws)
unfolding count_timeouts
count_timeouts_same [] ws = (refl, refl)
count_timeouts_same (h ∷ hs) ws =
    let ih = count_timeouts_same hs (every time_out ws) in
    let here = every-time_out ws in (ih.0 ∙ here.0, ih.1 ∙ here.1)

taken_idle : (n : ℕ) → (taken (idle_workers n) ≡ 0) × (processed_by (idle_workers n) ≡ 0)
unfolding taken sum_of
taken_idle zero = (refl, refl)
taken_idle (suc n) = let ih = taken_idle n in (omega (arith, ih.0), omega (arith, ih.1))

-- What can happen next: the main loop's calls, the push of a queue_request that passed its test
-- before, and the two blocks of worker i.
pub data Event : Type 0 where
  queues pushes : Bytes → ℤ → Bytes → Event
  takes processes : ℕ → Event
  receives : Bytes → Event
  cleans shuts clears : Event

module _ {lt : Libtorrent} where
  unfoldable pub step : WorkerPool lt → ℕ × Event → WorkerPool lt
  step p (now, queues h prio src) = (queue_request now h prio src p).0
  step p (now, pushes h prio src) = push_request now h prio src p
  step p (now, takes i) = take_request i p
  step p (now, processes i) = process_metadata_request now i p
  step p (now, receives h) = handle_metadata_received h p
  step p (now, cleans) = cleanup_timeouts now p
  step p (now, shuts) = begin_shutdown p
  step p (now, clears) = end_shutdown p

  unfoldable pub run : WorkerPool lt → List (ℕ × Event) → WorkerPool lt
  run p [] = p
  run p (e ∷ es) = run (step p e) es

  -- Every queued request is in the queue, in a worker's hands, processed or failed, and the pool's
  -- count of the processed ones is the workers'.
  pub record IsBalanced (p : WorkerPool lt) : Type 0 where
    pub all_queued : p.total_queued ≡ length p.request_queue + taken p.workers
    pub all_processed : p.total_processed ≡ processed_by p.workers

  push_request-IsBalanced :
      (now : ℕ) (h : Bytes) (prio : ℤ) (src : Bytes) (p : WorkerPool lt)
      → IsBalanced p
      → IsBalanced (push_request now h prio src p)
  unfolding push_request
  push_request-IsBalanced now h prio src p v =
      let r : MetadataRequest = record {
        info_hash = h;
        priority = prio;
        source = src;
        queued_time = now;
      } in
      record {
        all_queued = omega (arith, v.all_queued, length-append p.request_queue (r ∷ []));
        all_processed = v.all_processed;
      }

  queue_request-IsBalanced :
      (now : ℕ) (h : Bytes) (prio : ℤ) (src : Bytes) (p : WorkerPool lt)
      → IsBalanced p
      → IsBalanced (queue_request now h prio src p).0
  unfolding queue_request
  queue_request-IsBalanced now h prio src p v =
      let pushed = push_request-IsBalanced now h prio src p v in
      record {
        all_queued = ground (arith, v.all_queued, pushed.all_queued);
        all_processed = ground (arith, v.all_processed, pushed.all_processed);
      }

  take_request-IsBalanced :
      (i : ℕ) (p : WorkerPool lt) → IsBalanced p → IsBalanced (take_request i p)
  unfolding take_request
  take_request-IsBalanced i p v = by_queue p.request_queue refl
    where
      by_queue : (q : List MetadataRequest) → p.request_queue ≡ q → IsBalanced (take_request i p)
      by_queue [] e = record {
        all_queued = ground (arith, v.all_queued);
        all_processed = ground (arith, v.all_processed);
      }
      by_queue (r ∷ rs) e = record {
        all_queued = ground (arith, v.all_queued, taken-hold i r p.workers);
        all_processed = ground (arith, v.all_processed, processed_by-hold i (some r) p.workers);
      }

  add_to_session-IsBalanced :
      (now i : ℕ) (r : MetadataRequest) (hex : Bytes) (p : WorkerPool lt)
      → held_by i p.workers ≡ some r
      → IsBalanced p
      → IsBalanced (add_to_session now i r hex p)
  unfolding add_to_session
  add_to_session-IsBalanced now i r hex p e v =
      elim (Option-cases (start_torrent lt p.session hex).1) [
        | inl refused ↦
            rw (refused, add_to_session)
              (record {
                all_queued = omega (arith, v.all_queued, taken-fail i r p.workers e);
                all_processed = omega (arith, v.all_processed, processed_by-fail i p.workers);
              })
        | inr (h, started) ↦
            let done = taken-process i r p.workers e in
            rw (started, add_to_session)
              (record {
                all_queued = omega (arith, v.all_queued, done.0);
                all_processed = omega (arith, v.all_processed, done.1);
              })
      ]

  process_metadata_request-IsBalanced :
      (now i : ℕ) (p : WorkerPool lt) → IsBalanced p → IsBalanced (process_metadata_request now i p)
  unfolding process_metadata_request
  process_metadata_request-IsBalanced now i p v = by_held (held_by i p.workers) refl
    where
      by_hex :
          (r : MetadataRequest) (hex : Bytes)
          → held_by i p.workers ≡ some r
          → IsBalanced (elim hex [
            | [] ↦ record p { workers = modify i fail p.workers }
            | c ∷ cs ↦ add_to_session now i r (c ∷ cs) p
          ])
      by_hex r [] e = record {
        all_queued = omega (arith, v.all_queued, taken-fail i r p.workers e);
        all_processed = omega (arith, v.all_processed, processed_by-fail i p.workers);
      }
      by_hex r (c ∷ cs) e = add_to_session-IsBalanced now i r (c ∷ cs) p e v

      by_held :
          (o : Option MetadataRequest)
          → held_by i p.workers ≡ o
          → IsBalanced (process_metadata_request now i p)
      by_held none e = rw (e, process_metadata_request) v
      by_held (some r) e =
          rw (e, process_metadata_request) (by_hex r (convert_hash_to_hex r.info_hash) e)

  step-IsBalanced : (p : WorkerPool lt) (e : ℕ × Event) → IsBalanced p → IsBalanced (step p e)
  unfolding step handle_metadata_received cleanup_timeouts begin_shutdown end_shutdown
  step-IsBalanced p (now, queues h prio src) v = queue_request-IsBalanced now h prio src p v
  step-IsBalanced p (now, pushes h prio src) v = push_request-IsBalanced now h prio src p v
  step-IsBalanced p (now, takes i) v = take_request-IsBalanced i p v
  step-IsBalanced p (now, processes i) v = process_metadata_request-IsBalanced now i p v
  step-IsBalanced p (now, receives h) v =
      let s = every-succeed p.workers in
      record {
        all_queued = ground (arith, v.all_queued, s.0);
        all_processed = ground (arith, v.all_processed, s.1);
      }
  step-IsBalanced p (now, cleans) v =
      let late = split_timed_out now p.request_timeout_seconds p.pending_requests in
      let s = count_timeouts_same late.0 p.workers in
      record {
        all_queued = omega (arith, v.all_queued, s.0);
        all_processed = omega (arith, v.all_processed, s.1);
      }
  step-IsBalanced p (now, shuts) v = record {
    all_queued = v.all_queued;
    all_processed = v.all_processed;
  }
  step-IsBalanced p (now, clears) v = record {
    all_queued = v.all_queued;
    all_processed = v.all_processed;
  }

  run-IsBalanced :
      (p : WorkerPool lt) (es : List (ℕ × Event)) → IsBalanced p → IsBalanced (run p es)
  unfolding run
  run-IsBalanced p [] v = v
  run-IsBalanced p (e ∷ es) v = run-IsBalanced (step p e) es (step-IsBalanced p e v)

  -- In every sequence of these steps of the main loop and n workers, from a new pool, the requests
  -- ever queued are those in the queue, in a worker's hands, processed or failed, each counted once,
  -- and the pool's count of the processed ones is the sum of its workers'.
  pub run-init-IsBalanced :
      (s : lt.Session) (n : ℕ) (timeout : ℤ) (es : List (ℕ × Event))
      → IsBalanced (run (init s n timeout) es)
  unfolding init
  run-init-IsBalanced s n timeout es =
      let idle = taken_idle n in
      run-IsBalanced _ es
        (record { all_queued = omega (arith, idle.0); all_processed = omega (arith, idle.1) })

  -- The arrival of the metadata of one pending request raises the reported successes by the number
  -- of workers.
  pub received-get_stats :
      (h : Bytes) (t : ℕ) (p : WorkerPool lt)
      → lookup h p.pending_requests ≡ some t
      → (get_stats (handle_metadata_received h p)).successful
        ≡ (get_stats p).successful + length p.workers
  unfolding handle_metadata_received get_stats
  received-get_stats h t p e = ground (arith, every-succeed p.workers)
