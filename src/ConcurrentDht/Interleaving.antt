-- ===== src/ConcurrentDht/Interleaving.antt =====
-- The interleavings of the main thread with the workers, what is counted in them, and what a step
-- of a worker can do.
use dht_crawler.Base.{
  ℕ, ◌+◌, ◌-◌, ◌*◌, ◌≤◌, ◌≡◌, refl, inl, inr, ◌⊎◌, List, [], ◌∷◌, ◌++◌, Option, none, some, false,
  Bytes, bytes_key, contains, add, length, get_elem?, modify, if◌then◌else◌, arith,
}
use dht_crawler.Libtorrent.{DhtSession}
use dht_crawler.ConcurrentDht.{
  Stage, created, looping, drawing, ended, claimed, counted, ConcurrentDht, start, request_stop,
  join_workers, move_worker, enter_worker, test_loop, draw_hash, count_query, query_hash,
  send_query,
}
use dht_crawler.ConcurrentDht.Weights.{
  weight, is_active, is_claimed, is_counted, is_with, occurrences,
}

-- A step of the main thread or of worker i.
pub data Event : Type 0 where
  starts requests_stop joins : Event
  enters tests counts sends : ℕ → Event
  draws : ℕ → Bytes → Event

module _ {dht : DhtSession} where
  unfoldable pub step : ConcurrentDht dht → Event → ConcurrentDht dht
  step m starts = start m
  step m requests_stop = request_stop m
  step m joins = join_workers m
  step m (enters i) = enter_worker i m
  step m (tests i) = test_loop i m
  step m (draws i h) = draw_hash i h m
  step m (counts i) = count_query i m
  step m (sends i) = send_query i m

  unfoldable pub run : ConcurrentDht dht → List Event → ConcurrentDht dht
  run m [] = m
  run m (e ∷ es) = run (step m e) es

  -- The hash that a step gives to dht_get_peers.
  unfoldable pub asks : ConcurrentDht dht → Event → List Bytes
  asks m (sends i) = elim (get_elem? m.workers i) [ some (counted h) ↦ h ∷ [] | _ ↦ [] ]
  asks m _ = []

  -- The hashes that a run gives to dht_get_peers, the last first, after those of `before`.
  unfoldable pub asked_by : List Bytes → ConcurrentDht dht → List Event → List Bytes
  asked_by before m [] = before
  asked_by before m (e ∷ es) = asked_by (asks m e ++ before) (step m e) es

  pub record IsCounted (log : List Bytes) (m : ConcurrentDht dht) : Type 0 where
    pub active : m.worker_count ≡ weight is_active m.workers
    pub generated : length m.queried_hashes ≡ m.queries_generated + weight is_claimed m.workers
    pub sent : m.total_queries_sent + 2 * weight is_counted m.workers ≤ 2 * m.queries_generated
    pub once :
        (h : Bytes)
        → occurrences h log + weight (is_with h) m.workers
          ≤ (if contains h m.queried_hashes then 1 else 0)

  pub enter_cases :
      (i : ℕ) (m : ConcurrentDht dht)
      → (enter_worker i m ≡ m)
        ⊎ ((get_elem? m.workers i ≡ some created)
            × (enter_worker i m ≡ record m {
              worker_count = m.worker_count + 1;
              workers = modify i (λ _. looping) m.workers;
            }))
  unfolding enter_worker
  enter_cases i m = ground arith

  pub test_cases :
      (i : ℕ) (m : ConcurrentDht dht)
      → (test_loop i m ≡ m)
        ⊎ ((get_elem? m.workers i ≡ some looping)
            × ((test_loop i m ≡ move_worker i drawing m)
                ⊎ (test_loop i m ≡ record m {
                  worker_count = m.worker_count - 1;
                  workers = modify i (λ _. ended) m.workers;
                })))
  unfolding test_loop
  test_cases i m = ground arith

  pub draw_cases :
      (i : ℕ) (k : Bytes) (m : ConcurrentDht dht)
      → (draw_hash i k m ≡ m)
        ⊎ ((get_elem? m.workers i ≡ some drawing)
            × ((draw_hash i k m ≡ move_worker i looping m)
                ⊎ ((contains k m.queried_hashes ≡ false)
                    × (draw_hash i k m ≡ record m {
                      queried_hashes = add k m.queried_hashes;
                      workers = modify i (λ _. claimed k) m.workers;
                    }))))
  unfolding draw_hash
  draw_cases i k m = ground arith

  pub count_cases :
      (i : ℕ) (m : ConcurrentDht dht)
      → (count_query i m ≡ m)
        ⊎ ((h : Bytes) × (get_elem? m.workers i ≡ some (claimed h))
            × (count_query i m ≡ record m {
              queries_generated = m.queries_generated + 1;
              workers = modify i (λ _. counted h) m.workers;
            }))
  unfolding count_query
  count_cases i m = by_stage (get_elem? m.workers i) refl
    where
      by_stage :
          (o : Option Stage)
          → get_elem? m.workers i ≡ o
          → (count_query i m ≡ m)
            ⊎ ((h : Bytes) × (get_elem? m.workers i ≡ some (claimed h))
                × (count_query i m ≡ record m {
                  queries_generated = m.queries_generated + 1;
                  workers = modify i (λ _. counted h) m.workers;
                }))
      by_stage none e = inl (ground (arith, e))
      by_stage (some created) e = inl (ground (arith, e))
      by_stage (some looping) e = inl (ground (arith, e))
      by_stage (some drawing) e = inl (ground (arith, e))
      by_stage (some ended) e = inl (ground (arith, e))
      by_stage (some (claimed k)) e = inr (k, e, ground (arith, e))
      by_stage (some (counted k)) e = inl (ground (arith, e))

  pub send_cases :
      (i : ℕ) (m : ConcurrentDht dht)
      → ((send_query i m ≡ m) × (asks m (sends i) ≡ []))
        ⊎ ((h : Bytes) × (get_elem? m.workers i ≡ some (counted h))
            × (asks m (sends i) ≡ h ∷ [])
            × (send_query i m ≡ record m {
              session = (query_hash dht m.session h).0;
              total_queries_sent =
                  if (query_hash dht m.session h).1
                  then m.total_queries_sent + 2
                  else m.total_queries_sent;
              workers = modify i (λ _. looping) m.workers;
            }))
  unfolding send_query asks
  send_cases i m = by_stage (get_elem? m.workers i) refl
    where
      by_stage :
          (o : Option Stage)
          → get_elem? m.workers i ≡ o
          → ((send_query i m ≡ m) × (asks m (sends i) ≡ []))
            ⊎ ((h : Bytes) × (get_elem? m.workers i ≡ some (counted h))
                × (asks m (sends i) ≡ h ∷ [])
                × (send_query i m ≡ record m {
                  session = (query_hash dht m.session h).0;
                  total_queries_sent =
                      if (query_hash dht m.session h).1
                      then m.total_queries_sent + 2
                      else m.total_queries_sent;
                  workers = modify i (λ _. looping) m.workers;
                }))
      by_stage none e = inl (ground (arith, e))
      by_stage (some created) e = inl (ground (arith, e))
      by_stage (some looping) e = inl (ground (arith, e))
      by_stage (some drawing) e = inl (ground (arith, e))
      by_stage (some ended) e = inl (ground (arith, e))
      by_stage (some (claimed k)) e = inl (ground (arith, e))
      by_stage (some (counted k)) e = inr (k, e, ground (arith, e), ground (arith, e))
