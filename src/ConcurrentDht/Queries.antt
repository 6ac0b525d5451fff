-- ===== src/ConcurrentDht/Queries.antt =====
-- The queries of the workers in every interleaving.
use dht_crawler.Base.{
  ℕ, ◌+◌, ◌-◌, ◌≤◌, ◌≡◌, refl, inl, inr, List, [], ◌∷◌, ◌++◌, some, Bool-cases, true, false, ◌&&◌,
  Bytes, bytes_key, contains, add, contains-add, length-add_new, get_elem?, modify, if◌then◌else◌,
  arith,
}
use dht_crawler.Libtorrent.{DhtSession}
use dht_crawler.ConcurrentDht.{
  Stage, created, looping, drawing, ended, claimed, counted, ConcurrentDht, new_workers, all_ended,
  init, start, request_stop, join_workers, enter_worker, test_loop, draw_hash, count_query,
  query_hash, send_query,
}
use dht_crawler.ConcurrentDht.Weights.{
  weight, weight-modify, weight-append, weight_new, weight_ended, is_active, is_claimed, is_counted,
  same, is_with, occurrences, at_most_two,
}
use dht_crawler.ConcurrentDht.Interleaving.{
  Event, starts, requests_stop, joins, enters, tests, counts, sends, draws, step, run, asks,
  asked_by, IsCounted, enter_cases, test_cases, draw_cases, count_cases, send_cases,
}

module _ {dht : DhtSession} where
  -- A step that changes no hash in hand.
  shift-IsCounted :
      (log : List Bytes) (i : ℕ) (old new : Stage) (n : ℕ) (m : ConcurrentDht dht)
      → get_elem? m.workers i ≡ some old
      → IsCounted log m
      → n + is_active old ≡ m.worker_count + is_active new
      → is_claimed old ≡ is_claimed new
      → is_counted old ≡ is_counted new
      → ((h : Bytes) → is_with h old ≡ is_with h new)
      → IsCounted log (record m { worker_count = n; workers = modify i (λ _. new) m.workers })
  shift-IsCounted log i old new n m e v act cla cou wit = record {
    active = omega (arith, act, v.active, weight-modify is_active i old new m.workers e);
    generated = omega (arith, cla, v.generated, weight-modify is_claimed i old new m.workers e);
    sent = omega (arith, cou, v.sent, weight-modify is_counted i old new m.workers e);
    once = λ h. omega (arith, wit h, v.once h, weight-modify (is_with h) i old new m.workers e);
  }

  -- The decrement of a worker in its loop does not go below 0.
  active_le :
      (log : List Bytes) (i : ℕ) (m : ConcurrentDht dht)
      → get_elem? m.workers i ≡ some looping
      → IsCounted log m
      → m.worker_count - 1 + 1 ≡ m.worker_count + 0
  active_le log i m e v =
      omega (arith, v.active, weight-modify is_active i looping ended m.workers e)

  enter-IsCounted :
      (log : List Bytes) (i : ℕ) (m : ConcurrentDht dht)
      → IsCounted log m
      → IsCounted log (enter_worker i m)
  enter-IsCounted log i m v = elim (enter_cases i m) [
    | inl same_m ↦ rw same_m v
    | inr (e, moved) ↦ rw moved (
        shift-IsCounted log i created looping (m.worker_count + 1) m e v (omega arith) refl refl
          (λ h. refl))
  ]

  test-IsCounted :
      (log : List Bytes) (i : ℕ) (m : ConcurrentDht dht)
      → IsCounted log m
      → IsCounted log (test_loop i m)
  test-IsCounted log i m v = elim (test_cases i m) [
    | inl same_m ↦ rw same_m v
    | inr (e, inl moved) ↦
        rw moved
          (shift-IsCounted log i looping drawing m.worker_count m e v refl refl refl (λ h. refl))
    | inr (e, inr moved) ↦ rw moved (
        shift-IsCounted log i looping ended (m.worker_count - 1) m e v (active_le log i m e v) refl
          refl (λ h. refl))
  ]

  -- A hash that was not in the set joins it with one worker that has it.
  once_added :
      (log : List Bytes) (h k : Bytes) (m : ConcurrentDht dht) (now : ℕ)
      → contains k m.queried_hashes ≡ false
      → occurrences h log + weight (is_with h) m.workers
        ≤ (if contains h m.queried_hashes then 1 else 0)
      → now + 0 ≡ weight (is_with h) m.workers + same h k
      → occurrences h log + now ≤ (if contains h (add k m.queried_hashes) then 1 else 0)
  unfolding same
  once_added log h k m now fresh before moved =
      ground (arith, fresh, before, moved, contains-add k h m.queried_hashes)

  draw-IsCounted :
      (log : List Bytes) (i : ℕ) (k : Bytes) (m : ConcurrentDht dht)
      → IsCounted log m
      → IsCounted log (draw_hash i k m)
  draw-IsCounted log i k m v = elim (draw_cases i k m) [
    | inl same_m ↦ rw same_m v
    | inr (e, inl moved) ↦
        rw moved
          (shift-IsCounted log i drawing looping m.worker_count m e v refl refl refl (λ h. refl))
    | inr (e, inr (fresh, moved)) ↦ rw moved (record {
      active = omega (arith, v.active, weight-modify is_active i drawing (claimed k) m.workers e);
      generated = omega (
        arith,
        v.generated,
        length-add_new k m.queried_hashes fresh,
        weight-modify is_claimed i drawing (claimed k) m.workers e,
      );
      sent = omega (arith, v.sent, weight-modify is_counted i drawing (claimed k) m.workers e);
      once = λ h.
          once_added log h k m _ fresh (v.once h)
            (weight-modify (is_with h) i drawing (claimed k) m.workers e);
    })
  ]

  count-IsCounted :
      (log : List Bytes) (i : ℕ) (m : ConcurrentDht dht)
      → IsCounted log m
      → IsCounted log (count_query i m)
  count-IsCounted log i m v = elim (count_cases i m) [
    | inl same_m ↦ rw same_m v
    | inr (k, e, moved) ↦ rw moved (record {
      active =
          omega (arith, v.active, weight-modify is_active i (claimed k) (counted k) m.workers e);
      generated =
          omega
            (arith, v.generated, weight-modify is_claimed i (claimed k) (counted k) m.workers e);
      sent = omega (arith, v.sent, weight-modify is_counted i (claimed k) (counted k) m.workers e);
      once = λ h.
          omega (arith, v.once h, weight-modify (is_with h) i (claimed k) (counted k) m.workers e);
    })
  ]

  send-IsCounted :
      (log : List Bytes) (i : ℕ) (m : ConcurrentDht dht)
      → IsCounted log m
      → IsCounted (asks m (sends i) ++ log) (send_query i m)
  unfolding occurrences
  send-IsCounted log i m v = elim (send_cases i m) [
    | inl (same_m, nothing) ↦ rw (same_m, nothing) v
    | inr (k, e, asked, moved) ↦
        rw (moved, asked)
          (record {
            active =
                omega (arith, v.active, weight-modify is_active i (counted k) looping m.workers e);
            generated =
                omega
                  (arith, v.generated, weight-modify is_claimed i (counted k) looping m.workers e);
            sent = omega (
              arith,
              v.sent,
              at_most_two (query_hash dht m.session k).1 m.total_queries_sent,
              weight-modify is_counted i (counted k) looping m.workers e,
            );
            once = λ h.
                omega
                  (arith, v.once h, weight-modify (is_with h) i (counted k) looping m.workers e);
          })
  ]

  start-IsCounted :
      (log : List Bytes) (m : ConcurrentDht dht) → IsCounted log m → IsCounted log (start m)
  unfolding start
  start-IsCounted log m v = elim (Bool-cases m.running) [
    | inl runs ↦
        rw (runs, start)
          (record { active = v.active; generated = v.generated; sent = v.sent; once = v.once })
    | inr stopped ↦
        let ws = new_workers m.num_workers in
        rw (stopped, start)
          (record {
            active = omega (
              arith,
              v.active,
              weight-append is_active m.workers ws,
              weight_new is_active m.num_workers refl,
            );
            generated = omega (
              arith,
              v.generated,
              weight-append is_claimed m.workers ws,
              weight_new is_claimed m.num_workers refl,
            );
            sent = omega (
              arith,
              v.sent,
              weight-append is_counted m.workers ws,
              weight_new is_counted m.num_workers refl,
            );
            once = λ h. omega (
              arith,
              v.once h,
              weight-append (is_with h) m.workers ws,
              weight_new (is_with h) m.num_workers refl,
            );
          })
  ]

  join-IsCounted :
      (log : List Bytes) (m : ConcurrentDht dht) → IsCounted log m → IsCounted log (join_workers m)
  unfolding join_workers weight
  join-IsCounted log m v =
      elim (Bool-cases (m.running && m.shutdown_requested && all_ended m.workers)) [
        | inr waits ↦ rw (waits, join_workers) v
        | inl joined ↦
            let done : all_ended m.workers ≡ true = ground (arith, joined) in
            rw (joined, join_workers)
              (record {
                active = omega (arith, v.active, weight_ended is_active m.workers refl done);
                generated = omega (arith, v.generated, weight_ended is_claimed m.workers refl done);
                sent = omega (arith, v.sent, weight_ended is_counted m.workers refl done);
                once = λ h. omega (arith, v.once h, weight_ended (is_with h) m.workers refl done);
              })
      ]

  request_stop-IsCounted :
      (log : List Bytes) (m : ConcurrentDht dht) → IsCounted log m → IsCounted log (request_stop m)
  unfolding request_stop
  request_stop-IsCounted log m v = elim (Bool-cases m.running) [
    | inr stopped ↦
        rw (stopped, request_stop)
          (record { active = v.active; generated = v.generated; sent = v.sent; once = v.once })
    | inl runs ↦
        rw (runs, request_stop)
          (record { active = v.active; generated = v.generated; sent = v.sent; once = v.once })
  ]

  step-IsCounted :
      (log : List Bytes) (m : ConcurrentDht dht) (e : Event)
      → IsCounted log m
      → IsCounted (asks m e ++ log) (step m e)
  unfolding step asks
  step-IsCounted log m starts v = start-IsCounted log m v
  step-IsCounted log m requests_stop v = request_stop-IsCounted log m v
  step-IsCounted log m joins v = join-IsCounted log m v
  step-IsCounted log m (enters i) v = enter-IsCounted log i m v
  step-IsCounted log m (tests i) v = test-IsCounted log i m v
  step-IsCounted log m (draws i h) v = draw-IsCounted log i h m v
  step-IsCounted log m (counts i) v = count-IsCounted log i m v
  step-IsCounted log m (sends i) v = send-IsCounted log i m v

  run-IsCounted :
      (log : List Bytes) (m : ConcurrentDht dht) (es : List Event)
      → IsCounted log m
      → IsCounted (asked_by log m es) (run m es)
  unfolding run asked_by
  run-IsCounted log m [] v = v
  run-IsCounted log m (e ∷ es) v =
      run-IsCounted (asks m e ++ log) (step m e) es (step-IsCounted log m e v)

  -- In every interleaving of the main thread with the workers no hash is given to dht_get_peers
  -- twice, the active workers are counted, each hash of the set is counted as generated or still in
  -- the hands of the worker that put it there, and at most two queries are sent for each.
  pub run-init-IsCounted :
      (s : dht.Session) (n : ℕ) (es : List Event)
      → IsCounted (asked_by [] (init {dht = dht} s n) es) (run (init {dht = dht} s n) es)
        × ((h : Bytes) → occurrences h (asked_by [] (init {dht = dht} s n) es) ≤ 1)
  unfolding init weight occurrences contains
  run-init-IsCounted s n es =
      let fresh : IsCounted [] (init {dht = dht} s n) = record {
        active = refl;
        generated = refl;
        sent = omega arith;
        once = λ h. omega arith;
      } in
      let v = run-IsCounted [] (init {dht = dht} s n) es fresh in (v, λ h. ground (arith, v.once h))
