-- ===== src/Crawler/Discovery/Runs.antt =====
-- Runs of the discovery loop with the workers of the pool and of the concurrent DHT manager.
use dht_crawler.Base.{
  ℕ, ℤ, if◌then◌else◌, ◌+◌, ◌%◌, pos, ◌≡◌, refl, ap, ◌∙◌, List, [], ◌∷◌, some, Bool, true, false,
  not, ◌&&◌, Bytes, bytes_key, lookup, contains, Values-lookup, if_both, arith, ◌==◌,
}
use dht_crawler.Libtorrent.{Libtorrent, dht_of}
use dht_crawler.SmartCrawler
use dht_crawler.SmartCrawler.{SmartCrawler}
use dht_crawler.SmartCrawler.Queries.Readable.{send_smart_queries_read}
use dht_crawler.Bep51Indexer
use dht_crawler.Bep51Indexer.{Bep51Indexer, Query, query_sample_infohashes}
use dht_crawler.WorkerPool
use dht_crawler.WorkerPool.{
  WorkerPool, Worker, held_by, idle_workers, take_request, process_metadata_request,
  cleanup_timeouts, split_timed_out, count_timeouts, MetadataRequest,
}
use dht_crawler.Crawler.{DiscoveredTorrent, Database, Crawler, init, start_crawling}
use dht_crawler.Crawler.Handlers.{request_metadata_for_discovered_torrents}
use dht_crawler.Crawler.Timeouts.{mark_all, mark_timeouts}
use dht_crawler.Crawler.Discovery.{
  within_limit, Round, Event, rounds, takes, processes, sends, queue_collected, nodes_to_query,
  query_bep51, query_bep51_infohashes, query_smart, send_smart_queries, adjust_limit, at_every,
  with_pool, discovery_round, step, run,
}
use dht_crawler.Crawler.Discovery.Unused.{
  IsUnused, new_pool, IsUnused-rule, timeouts_none, take-IsUnused, process-IsUnused,
  collected-query_nodes,
}
use dht_crawler.Crawler.Discovery.Idle.{IsDormant, request_for_torrents_none}
use dht_crawler.Crawler.Discovery.Alerts.{process_alerts-IsDormant}

module _ {lt : Libtorrent} {db : Database} where
  -- No torrent is marked as timed out.
  mark_timeouts_none : (now : ℕ) (c : Crawler lt db) → IsDormant c → mark_timeouts now c ≡ c
  unfolding mark_timeouts mark_all
  mark_timeouts_none now c v = rw (timeouts_none now c.worker_pool v.pool)

  request_metadata_none :
      (now : ℕ) (c : Crawler lt db)
      → IsDormant c
      → request_metadata_for_discovered_torrents now c ≡ c
  unfolding request_metadata_for_discovered_torrents
  request_metadata_none now c v =
      request_for_torrents_none now 0 c.discovered_torrents c v.requested

  with_pool-IsDormant :
      (f : WorkerPool lt → WorkerPool lt) (c : Crawler lt db)
      → ((s : lt.Session) → IsUnused (f (new_pool lt s)))
      → IsDormant c
      → IsDormant (with_pool f c)
  unfolding with_pool WorkerPool.init
  with_pool-IsDormant f c h v = record {
    requested = v.requested;
    pool =
        let lent : WorkerPool lt → WorkerPool lt = λ p. record p { session = c.session } in
        IsUnused-rule f h (lent c.worker_pool) (ap lent v.pool);
    collected = v.collected;
    observed = v.observed;
    running = v.running;
  }

  at_every-IsDormant :
      (n counter : ℕ) (f : Crawler lt db → Crawler lt db) (c : Crawler lt db)
      → (IsDormant c → IsDormant (f c))
      → IsDormant c
      → IsDormant (at_every n counter f c)
  unfolding at_every
  at_every-IsDormant n counter f c h v = if_both IsDormant (counter % n == 0) (h v) v

  adjust_limit-IsDormant : (c : Crawler lt db) → IsDormant c → IsDormant (adjust_limit c)
  unfolding adjust_limit
  adjust_limit-IsDormant c v = record {
    requested = v.requested;
    pool = v.pool;
    collected = v.collected;
    observed = v.observed;
    running = v.running;
  }

  smart-IsDormant :
      (r : Round lt) (c : Crawler lt db) → IsDormant c → IsDormant (send_smart_queries r c)
  unfolding send_smart_queries query_smart
  smart-IsDormant r c v =
      let s : SmartCrawler (dht_of lt) = record (c.smart_crawler) {
        rate_limiter = record (c.smart_crawler.rate_limiter) { session = c.session };
      } in
      let (returned, kept) =
        send_smart_queries_read (λ i. r.now) r.now r.random_hashes s v.observed in
      if_both IsDormant c.smart_mode
        (record {
          requested = v.requested;
          pool = v.pool;
          collected = v.collected;
          observed = rw kept v.observed;
          running = ground (arith, v.running, returned);
        })
        v

  queue_collected_none :
      (now : ℕ) (hs : List Bytes) (c : Crawler lt db)
      → hs ≡ []
      → IsDormant c
      → IsDormant (queue_collected now hs c)
  unfolding queue_collected
  queue_collected_none now [] c e v = v
  queue_collected_none now (h ∷ hs) c e v = cc

  module _ (put : lt.Session → Query → lt.Session × Bool) where
    query_bep51-IsDormant :
        (r : Round lt) (c : Crawler lt db)
        → IsDormant c
        → IsDormant (query_bep51_infohashes put r c)
    unfolding query_bep51_infohashes query_bep51
    query_bep51-IsDormant r c v =
        let x = record (c.bep51_indexer) { session = some c.session } in
        let ids = nodes_to_query r.random_ids c.bep51_indexer.known_nodes in
        let none' = collected-query_nodes put r.random_targets 0 ids x ∙ v.collected in
        if_both IsDormant c.bep51_mode
          (queue_collected_none r.now _ _ none' (record {
            requested = v.requested;
            pool = v.pool;
            collected = none';
            observed = v.observed;
            running = v.running;
          }))
          v

    discovery_round-IsDormant :
        (counter : ℕ) (r : Round lt) (c : Crawler lt db)
        → IsDormant c
        → IsDormant (discovery_round put counter r c)
    unfolding discovery_round
    discovery_round-IsDormant counter r c v =
        at_every-IsDormant 50 counter adjust_limit _ (adjust_limit-IsDormant _) (
          at_every-IsDormant 3 counter (mark_timeouts r.now) _
            (λ w. rw (mark_timeouts_none r.now _ w) w)
            (at_every-IsDormant 20 counter (send_smart_queries r) _ (smart-IsDormant r _) (
              at_every-IsDormant 30 counter (query_bep51_infohashes put r) _
                (query_bep51-IsDormant r _)
                (at_every-IsDormant 5 counter (request_metadata_for_discovered_torrents r.now) _
                  (λ w. rw (request_metadata_none r.now _ w) w)
                  (process_alerts-IsDormant r.now r.alerts c v)))))

    step-IsDormant :
        (m : ℤ) (e : Event lt) (s : Crawler lt db × ℕ)
        → IsDormant s.0
        → IsDormant (step put m e s).0
    unfolding step
    step-IsDormant m (rounds r) (c, counter) v =
        if_both (λ (t : Crawler lt db × ℕ). IsDormant t.0)
          (c.running && not c.shutdown_requested && within_limit m r)
          (discovery_round-IsDormant counter r c v) v
    step-IsDormant m (sends h) (c, counter) v = record {
      requested = v.requested;
      pool = v.pool;
      collected = v.collected;
      observed = v.observed;
      running = v.running;
    }
    step-IsDormant m (takes i) (c, counter) v =
        with_pool-IsDormant (take_request i) c (take-IsUnused i) v
    step-IsDormant m (processes now i) (c, counter) v =
        with_pool-IsDormant (process_metadata_request now i) c (process-IsUnused now i) v

    run-IsDormant :
        (m : ℤ) (es : List (Event lt)) (s : Crawler lt db × ℕ)
        → IsDormant s.0
        → IsDormant (run put m es s).0
    unfolding run
    run-IsDormant m [] s v = v
    run-IsDormant m (e ∷ es) s v = run-IsDormant m es _ (step-IsDormant m e s v)

    -- The state behind the start of startCrawling and these events.
    abbrev pub after : ℤ → List (Event lt) → lt.Session → db.Connection → Bool → Crawler lt db
    after m es session mysql bep51 =
        let c : Crawler lt db = start_crawling (init session mysql false bep51) in
        (run put m es (c, 0)).0

    after-IsDormant :
        (m : ℤ) (es : List (Event lt)) (session : lt.Session) (mysql : db.Connection) (bep51 : Bool)
        → IsDormant (after m es session mysql bep51)
    unfolding start_crawling init WorkerPool.init Bep51Indexer.init SmartCrawler.init
    after-IsDormant m es session mysql bep51 =
        let c : Crawler lt db = start_crawling (init session mysql false bep51) in
        run-IsDormant m es (c, 0)
          (record { requested = tt; pool = refl; collected = refl; observed = tt; running = refl })

    -- From the start of startCrawling, after any rounds and any steps of the workers, the loop
    -- makes a further round exactly if the limit on the queries allows one: no smart query threw, as
    -- std::stoi reads every hash that was observed.
    pub run-goes_on :
        (m : ℤ) (es : List (Event lt)) (session : lt.Session) (mysql : db.Connection) (bep51 : Bool)
        (r : Round lt) (counter : ℕ)
        → step put m (rounds r) (after m es session mysql bep51, counter) ≡ (
            if within_limit m r
            then (discovery_round put counter r (after m es session mysql bep51), counter + 1)
            else (after m es session mysql bep51, counter))
    unfolding step
    run-goes_on m es session mysql bep51 r counter =
        ground (arith, (after-IsDormant m es session mysql bep51).running)

    -- From the start of startCrawling, after any rounds and any steps of the workers, the
    -- pool is as it was made, so it never had a request; no torrent is marked as timed out, at any
    -- instant; and no infohash was collected by BEP 51.
    pub run-idle :
        (m : ℤ) (es : List (Event lt)) (session : lt.Session) (mysql : db.Connection) (bep51 : Bool)
        (now : ℕ)
        → let c = after m es session mysql bep51 in
          (c.worker_pool ≡ WorkerPool.init c.worker_pool.session 10 (pos 20))
          × (mark_timeouts now c ≡ c)
          × (c.bep51_indexer.collected_infohashes ≡ [])
    run-idle m es session mysql bep51 now =
        let v = after-IsDormant m es session mysql bep51 in
        (v.pool, mark_timeouts_none now _ v, v.collected)

    -- From the start of startCrawling, after any rounds and any steps of the workers, the metadata of
    -- every torrent found was requested, and requestMetadataForDiscoveredTorrents changes nothing.
    pub run-requested :
        (m : ℤ) (es : List (Event lt)) (session : lt.Session) (mysql : db.Connection) (bep51 : Bool)
        (now : ℕ) (h : Bytes) (t : DiscoveredTorrent)
        → lookup h (after m es session mysql bep51).discovered_torrents ≡ some t
        → (contains t.info_hash (after m es session mysql bep51).metadata_requested ≡ true)
          × (request_metadata_for_discovered_torrents now (after m es session mysql bep51)
              ≡ after m es session mysql bep51)
    run-requested m es session mysql bep51 now h t found =
        let v = after-IsDormant m es session mysql bep51 in
        (Values-lookup _ h t _ v.requested found, request_metadata_none now _ v)
