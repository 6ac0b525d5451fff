-- ===== src/Tests/Dht.antt =====
-- The workers that query the DHT.
use dht_crawler.Base.{
  ◌≡◌, ◌≤◌, refl, modify, contains, add, Bytes-discrete, ℕ_discrete, List, [], ◌∷◌, Bytes, bytes,
}
use dht_crawler.Tests.{toy_dht}
use dht_crawler.ConcurrentDht.{
  init, start, new_workers, enter_worker, test_loop, draw_hash, count_query, send_query, query_hash,
  request_stop, join_workers, all_ended,
}
use dht_crawler.ConcurrentDht.Weights.{occurrences}
use dht_crawler.ConcurrentDht.Interleaving.{
  Event, starts, requests_stop, joins, enters, tests, counts, sends, draws, run, step, asked_by,
  asks, IsCounted,
}
use dht_crawler.ConcurrentDht.Queries.{run-init-IsCounted}

-- Two workers draw the same hash; the second one skips it.
abbrev events : List Event
events =
    starts
    ∷ enters 0
    ∷ enters 1
    ∷ tests 0
    ∷ tests 1
    ∷ draws 0 (bytes "h")
    ∷ draws 1 (bytes "h")
    ∷ counts 0
    ∷ sends 0
    ∷ requests_stop
    ∷ tests 0
    ∷ tests 1
    ∷ joins
    ∷ []

run-init-IsCounted_example :
    IsCounted
      (asked_by {dht = toy_dht} [] (init [] 2) events)
      (run {dht = toy_dht} (init [] 2) events)
    × ((h : Bytes) → occurrences h (asked_by {dht = toy_dht} [] (init [] 2) events) ≤ 1)
run-init-IsCounted_example = run-init-IsCounted {dht = toy_dht} [] 2 events

one_query : asked_by {dht = toy_dht} [] (init [] 2) events ≡ bytes "h" ∷ []
unfolding asked_by asks step init start new_workers enter_worker test_loop draw_hash count_query
    send_query query_hash modify contains add Bytes-discrete ℕ_discrete request_stop join_workers
    all_ended
one_query = refl
