-- ===== src/Crawler/Discovery.antt =====
-- The loop of startCrawling in src/dht_crawler.cpp that discovers torrents with the concurrent DHT
-- manager, and queryBEP51Infohashes. What libtorrent does for the BEP 51 queries is an argument. A
-- round takes no time. A run is a sequence of rounds of the loop and of steps of the workers.
mod Idle
mod Alerts
mod Unused
pub mod Runs
use dht_crawler.Base.{
  ℕ, ◌+◌, ◌%◌, ℤ, pos, List, [], ◌∷◌, Option, none, some, Bool, true, false, ◌&&◌, ◌||◌, ltb_ℤ, not,
  Bytes, bytes, StdSet, length, take, ◌==◌, if◌then◌else◌,
}
use dht_crawler.Libtorrent.{Libtorrent, dht_of}
use dht_crawler.HashFormat.{bytes_to_hex}
use dht_crawler.Bep51Indexer.{Bep51Indexer, Query, query_sample_infohashes}
use dht_crawler.Downloader.{adjust_concurrent_limit}
use dht_crawler.SmartCrawler.{SmartCrawler}
use dht_crawler.ConcurrentDht.{query_hash}
use dht_crawler.SmartCrawler.Queries
use dht_crawler.WorkerPool.{
  WorkerPool, cleanup_timeouts, split_timed_out, take_request, process_metadata_request,
}
use dht_crawler.Crawler.{Database, Crawler, auto_queue, unless_none}
use dht_crawler.Crawler.Handlers.{request_metadata_for_discovered_torrents}
use dht_crawler.Crawler.Timeouts.{mark_timeouts}
use dht_crawler.Crawler.Metadata.{Alert, process_alerts}

-- What a round draws and receives: the i-th node id and the i-th target of the BEP 51
-- queries, the i-th hash of the smart queries,
-- and what get_total_queries_sent() answers at its start.
pub record Round (lt : Libtorrent) : Type 0 where
  pub now : ℕ
  pub alerts : List (Alert lt)
  pub random_ids : ℕ → Bytes
  pub random_targets : ℕ → Bytes
  pub random_hashes : ℕ → Bytes
  pub total_queries_sent : ℤ

-- A round of the loop, a step of a worker of the pool, or the queries that a worker of the concurrent
-- DHT manager sends for a hash.
pub data Event (lt : Libtorrent) : Type 0 where
  rounds : Round lt → Event lt
  takes : ℕ → Event lt
  processes : ℕ → ℕ → Event lt
  sends : Bytes → Event lt

-- max_queries < 0 || get_total_queries_sent() < max_queries.
unfoldable pub within_limit : {lt : Libtorrent} → ℤ → Round lt → Bool
within_limit m r = ltb_ℤ m (pos 0) || ltb_ℤ r.total_queries_sent m

-- The queries to the nodes, from the i-th target on.
unfoldable pub query_nodes :
    {S : Type 0}
    → (S → Query → S × Bool)
    → (ℕ → Bytes)
    → ℕ
    → List Bytes
    → Bep51Indexer S
    → Bep51Indexer S
query_nodes put targets i [] x = x
query_nodes put targets i (node_id ∷ ids) x =
    query_nodes put targets (i + 1) ids (query_sample_infohashes put (targets i) node_id [] x).0

-- Up to 10 of the known nodes, or three random ids where none is known.
unfoldable pub nodes_to_query : (ℕ → Bytes) → StdSet Bytes → List Bytes
nodes_to_query random_ids [] = random_ids 0 ∷ random_ids 1 ∷ random_ids 2 ∷ []
nodes_to_query random_ids (n ∷ ns) = take 10 (n ∷ ns)

module _ {lt : Libtorrent} {db : Database} where
  -- A worker of the pool works with the session.
  unfoldable pub with_pool : (WorkerPool lt → WorkerPool lt) → Crawler lt db → Crawler lt db
  with_pool f c =
      let p = f (record (c.worker_pool) { session = c.session }) in
      record c { worker_pool = p; session = p.session }

  -- if (progress_counter % n == 0) ...
  unfoldable pub at_every : ℕ → ℕ → (Crawler lt db → Crawler lt db) → Crawler lt db → Crawler lt db
  at_every n counter f c = if counter % n == 0 then f c else c

  -- Queue the collected infohashes for metadata.
  unfoldable pub queue_collected : ℕ → List Bytes → Crawler lt db → Crawler lt db
  queue_collected now [] c = c
  queue_collected now (infohash ∷ infohashes) c =
      queue_collected now infohashes
        (auto_queue now (bytes_to_hex infohash) (pos 5) (bytes "BEP51") c)

  -- m_smart_crawler->send_smart_queries(). Its exception leaves the loop.
  unfoldable pub query_smart : Round lt → Crawler lt db → Crawler lt db
  query_smart r c =
      let (s, returned) =
        Queries.send_smart_queries (λ i. r.now) r.now r.random_hashes (with_session c) in
      record c {
        smart_crawler = s;
        session = s.rate_limiter.session;
        running = c.running && returned;
      }
    where
      with_session : Crawler lt db → SmartCrawler (dht_of lt)
      with_session c = record (c.smart_crawler) {
        rate_limiter = record (c.smart_crawler.rate_limiter) { session = c.session };
      }

  -- if (m_smart_crawler && m_use_smart_mode) ...
  unfoldable pub send_smart_queries : Round lt → Crawler lt db → Crawler lt db
  unfolding query_smart
  send_smart_queries r c = if c.smart_mode then query_smart r c else c

  unfoldable pub adjust_limit : Crawler lt db → Crawler lt db
  adjust_limit c = record c { downloader = adjust_concurrent_limit c.downloader }

  module _ (put : lt.Session → Query → lt.Session × Bool) where
    unfoldable pub query_bep51 : Round lt → Crawler lt db → Crawler lt db
    unfolding query_nodes nodes_to_query
    query_bep51 r c =
        let x =
          query_nodes put r.random_targets 0
            (nodes_to_query r.random_ids c.bep51_indexer.known_nodes)
            (record (c.bep51_indexer) { session = some c.session }) in
        queue_collected r.now x.collected_infohashes
          (record c { bep51_indexer = x; session = unless_none c.session x.session })

    unfoldable pub query_bep51_infohashes : Round lt → Crawler lt db → Crawler lt db
    unfolding query_bep51
    query_bep51_infohashes r c = if c.bep51_mode then query_bep51 r c else c

    -- The body of the loop in the round that progress_counter gives.
    unfoldable pub discovery_round : ℕ → Round lt → Crawler lt db → Crawler lt db
    discovery_round counter r c = at_every 50 counter adjust_limit (
        at_every 3 counter (mark_timeouts r.now) (
          at_every 20 counter (send_smart_queries r) (
            at_every 30 counter (query_bep51_infohashes r) (
              at_every 5 counter (request_metadata_for_discovered_torrents r.now)
                (process_alerts r.now r.alerts c)))))

    -- The crawler with progress_counter. A round is made while the loop goes on.
    unfoldable pub step : ℤ → Event lt → Crawler lt db × ℕ → Crawler lt db × ℕ
    unfolding discovery_round with_pool within_limit
    step m (rounds r) (c, counter) =
        if c.running && not c.shutdown_requested && within_limit m r
        then (discovery_round counter r c, counter + 1)
        else (c, counter)
    step m (sends h) (c, counter) =
        (record c { session = (query_hash (dht_of lt) c.session h).0 }, counter)
    step m (takes i) (c, counter) = (with_pool (take_request i) c, counter)
    step m (processes now i) (c, counter) = (with_pool (process_metadata_request now i) c, counter)

    unfoldable pub run : ℤ → List (Event lt) → Crawler lt db × ℕ → Crawler lt db × ℕ
    run m [] s = s
    run m (e ∷ es) s = run m es (step m e s)
