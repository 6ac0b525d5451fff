-- ===== src/Downloader/Loop.antt =====
-- The loop of process_queue: what a round does, a rule for invariants, and termination.
use mathlib.Core.List.{append-nil}
use dht_crawler.Base.{
  ℕ, zero, suc, ◌+◌, ◌-◌, ◌≤◌, ◌<◌, ℤ, pos, negsuc, ◌-ℤ◌, ltb_ℤ, ◌≡◌, refl, inl, inr, Option, none,
  some, List, [], ◌∷◌, ◌++◌, arith, Bool, true, false, Bytes, bytes, bytes_key, insert, Bool-cases,
}
use dht_crawler.Libtorrent.{Libtorrent, start_torrent}
use dht_crawler.HashFormat.{convert_hash_to_hex}
use dht_crawler.RequestQueue.{RequestQueue, QueueEntry, enqueue}
use dht_crawler.RequestQueue.Best.{Dequeued, dequeue-Dequeued}
use dht_crawler.RequestTracker.{RequestInfo, add_request}
use dht_crawler.Downloader.{
  Downloader, start_request, process_single_request, account, process_round, goes_on, process_loop,
  rounds_left, queue_rounds, process_queue,
}

module _ {lt : Libtorrent} where
  -- What process_single_request can answer: libtorrent's state may change, and a request that is
  -- started is in the tracker.
  pub data Outcome (x : QueueEntry) (d : Downloader lt) : Downloader lt × Bool → Type 0 where
    refused :
        (s : Option lt.Session)
        → (s ≡ none → d.session ≡ none)
        → Outcome x d (record d { session = s }, false)
    started :
        (s : lt.Session) (r : RequestInfo lt.Handle)
        → Outcome x d
            (record d { session = some s; active_tracker = insert x.hash r d.active_tracker }, true)

  start_request-Outcome :
      (now : ℕ) (x : QueueEntry) (s : lt.Session) (hex : Bytes) (d : Downloader lt)
      → Outcome x d (start_request now x s hex d)
  unfolding start_request add_request
  start_request-Outcome now x s hex d = by_result (start_torrent lt s hex)
    where
      by_result :
          (r : lt.Session × Option lt.Handle)
          → Outcome x d (elim r.1 [
            | none ↦ (record d { session = some r.0 }, false)
            | some handle ↦ (
              record d {
                session = some r.0;
                active_tracker = add_request x.hash now x.priority x.source handle d.active_tracker;
              },
              true,
            )
          ])
      by_result (s', none) = refused (some s') (λ e. absurd (ground arith))
      by_result (s', some handle) = started s' _

  session_cases :
      (now : ℕ) (x : QueueEntry) (hex : Bytes) (d : Downloader lt) (s : Option lt.Session)
      → d.session ≡ s
      → Outcome x d (elim s [ none ↦ (d, false) | some s' ↦ start_request now x s' hex d ])
  session_cases now x hex d none e = refused d.session (λ h. h)
  session_cases now x hex d (some s) e = start_request-Outcome now x s hex d

  pub process_single-Outcome :
      (now : ℕ) (x : QueueEntry) (d : Downloader lt) → Outcome x d (process_single_request now x d)
  unfolding process_single_request
  process_single-Outcome now x d = by_hex (convert_hash_to_hex x.hash)
    where
      by_hex :
          (hex : Bytes)
          → Outcome x d (elim hex [
            | [] ↦ (d, false)
            | c ∷ cs ↦ elim d.session [
              | none ↦ (d, false)
              | some s ↦ start_request now x s (c ∷ cs) d
            ]
          ])
      by_hex [] = refused d.session (λ h. h)
      by_hex (c ∷ cs) = session_cases now x (c ∷ cs) d d.session refl

  -- A round takes the best entry, tries it, and accounts for the answer.
  pub process_round_cases {ℓ} :
      (P : Downloader lt × ℕ → Type ℓ) (now : ℕ) (s : Downloader lt × ℕ)
      → goes_on s ≡ true
      → ((x : QueueEntry) (q : RequestQueue) (o : Downloader lt × Bool)
          → Dequeued s.0.queue x q
          → Outcome x (record s.0 { queue = q }) o
          → P (account now x s.1 o))
      → P (process_round now s)
  unfolding process_round goes_on
  process_round_cases P now (d, n) on step = elim (dequeue-Dequeued d.queue) [
    | inl (e, _) ↦ absurd (ground arith)
    | inr (x, q, e, took) ↦
        rw (e, process_round)
          (step x q _ took (process_single-Outcome now x (record d { queue = q })))
  ]

  -- What every round keeps, the loop keeps.
  pub process_loop_inv {ℓ} :
      (P : Downloader lt × ℕ → Type ℓ) (now : ℕ)
      → ((s : Downloader lt × ℕ) → goes_on s ≡ true → P s → P (process_round now s))
      → (fuel : ℕ) (s : Downloader lt × ℕ) → P s
      → P (process_loop fuel now s)
  unfolding process_loop
  process_loop_inv P now keep zero s p = p
  process_loop_inv P now keep (suc fuel) s p = elim (Bool-cases (goes_on s)) [
    | inl on ↦
        rw (on, process_loop) (process_loop_inv P now keep fuel (process_round now s) (keep s on p))
    | inr off ↦ rw (off, process_loop) p
  ]

queue_rounds-append :
    (xs : List QueueEntry) (x : QueueEntry) (ys : List QueueEntry)
    → queue_rounds (xs ++ (x ∷ ys)) ≡ rounds_left x.priority + queue_rounds (xs ++ ys)
unfolding queue_rounds
queue_rounds-append [] x ys = refl
queue_rounds-append (y ∷ xs) x ys = omega (arith, queue_rounds-append xs x ys)

queue_rounds-enqueue-le :
    (now : ℕ) (h : Bytes) (p : ℤ) (src : Bytes) (q : RequestQueue)
    → queue_rounds (enqueue now h p src q).queue ≤ rounds_left p + queue_rounds q.queue
unfolding enqueue queue_rounds
queue_rounds-enqueue-le now h p src q = ground (
  arith,
  queue_rounds-append q.queue (record { hash = h; priority = p; source = src; queued_time = now })
      [],
  append-nil q.queue,
)

queue_rounds-Dequeued :
    {q q' : RequestQueue} {x : QueueEntry}
    → Dequeued q x q'
    → queue_rounds q.queue ≡ rounds_left x.priority + queue_rounds q'.queue
queue_rounds-Dequeued {x} d = rw (d.splits.split, d.rest) (queue_rounds-append d.pre x d.post)

-- A retry has fewer rounds left than the attempt before it.
rounds_left_retry : (p : ℤ) → ltb_ℤ (pos 1) p ≡ true → rounds_left (p -ℤ pos 1) < rounds_left p
rounds_left_retry (pos zero) h = absurd (ground arith)
rounds_left_retry (pos (suc zero)) h = absurd (ground arith)
rounds_left_retry (pos (suc (suc n))) h = rw (one_less n) (omega arith)
  where
    one_less : (n : ℕ) → pos (suc (suc n)) -ℤ pos 1 ≡ pos (suc n)
    one_less n = ground arith
rounds_left_retry (negsuc n) h = absurd (ground arith)

rounds_left_pos : (p : ℤ) → 0 < rounds_left p
rounds_left_pos (pos zero) = omega arith
rounds_left_pos (pos (suc n)) = omega arith
rounds_left_pos (negsuc n) = omega arith

module _ {lt : Libtorrent} where
  account_rounds :
      (now n : ℕ) (x : QueueEntry) (d : Downloader lt) (o : Downloader lt × Bool)
      → Outcome x d o
      → queue_rounds (account now x n o).0.queue.queue
        < rounds_left x.priority + queue_rounds d.queue.queue
  unfolding account
  account_rounds now n x d _ (started s r) = omega (arith, rounds_left_pos x.priority)
  account_rounds now n x d _ (refused s h) = ground (
    arith,
    rounds_left_pos x.priority,
    rounds_left_retry x.priority,
    queue_rounds-enqueue-le now x.hash (x.priority -ℤ pos 1) (x.source ++ bytes "_RETRY") d.queue,
  )

  pub process_round-queue_rounds :
      (now : ℕ) (s : Downloader lt × ℕ)
      → goes_on s ≡ true
      → queue_rounds (process_round now s).0.queue.queue < queue_rounds s.0.queue.queue
  process_round-queue_rounds now s on =
      process_round_cases (λ t. queue_rounds t.0.queue.queue < queue_rounds s.0.queue.queue) now s
        on
        λ x q o took out. omega (
          arith,
          account_rounds now s.1 x (record s.0 { queue = q }) o out,
          queue_rounds-Dequeued took,
        )

  process_loop_stops :
      (fuel now : ℕ) (s : Downloader lt × ℕ)
      → queue_rounds s.0.queue.queue < fuel
      → goes_on (process_loop fuel now s) ≡ false
  unfolding process_loop
  process_loop_stops zero now s h = absurd (omega arith)
  process_loop_stops (suc fuel) now s h = elim (Bool-cases (goes_on s)) [
    | inl on ↦
        rw (on, process_loop)
          (process_loop_stops fuel now (process_round now s)
            (omega (arith, process_round-queue_rounds now s on)))
    | inr off ↦ rw (off, process_loop) off
  ]

  account_counts :
      (now n : ℕ) (x : QueueEntry) (d : Downloader lt) (o : Downloader lt × Bool)
      → Outcome x d o
      → (account now x n o).0.total_processed + n ≡ (account now x n o).1 + d.total_processed
  unfolding account
  account_counts now n x d _ (started s r) = omega arith
  account_counts now n x d _ (refused s h) = ground arith

  process_loop_counts :
      (fuel now : ℕ) (d : Downloader lt)
      → (process_loop fuel now (d, 0)).0.total_processed
        ≡ (process_loop fuel now (d, 0)).1 + d.total_processed
  process_loop_counts fuel now d =
      process_loop_inv (λ t. t.0.total_processed ≡ t.1 + d.total_processed) now
        (λ s on h.
          process_round_cases (λ t. t.0.total_processed ≡ t.1 + d.total_processed) now s on
            λ x q o took out.
              omega (arith, account_counts now s.1 x (record s.0 { queue = q }) o out))
        fuel (d, 0) (omega arith)

  -- process_queue always ends, whatever libtorrent answers, and it ends only where the queue is
  -- empty, the limit of concurrent requests is reached, or 50 requests were started in this call.
  pub process_queue_stops :
      (now : ℕ) (d : Downloader lt)
      → goes_on (process_queue now d, (process_queue now d).total_processed - d.total_processed)
        ≡ false
  unfolding process_queue
  process_queue_stops now d =
      let t = process_loop (suc (queue_rounds d.queue.queue)) now (d, 0) in
      let n_eq : t.0.total_processed - d.total_processed ≡ t.1 =
        omega (arith, process_loop_counts (suc (queue_rounds d.queue.queue)) now d) in
      rw n_eq (process_loop_stops (suc (queue_rounds d.queue.queue)) now (d, 0) (omega arith))
