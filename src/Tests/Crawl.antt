-- ===== src/Tests/Crawl.antt =====
-- The crawler and its loops.
use dht_crawler.Base.{
  ℕ, ◌+◌, ◌≡◌, ◌≤◌, refl, pos, List, [], ◌∷◌, some, Bool, true, false, Bytes, bytes, bytes_key,
  lookup, contains, insert, add, less, take, drop, ltb, if◌then◌else◌, zero, suc, length, arith,
  Bytes-discrete, ℕ_discrete,
}
use dht_crawler.Bep51Indexer
use dht_crawler.Bep51Indexer.{Query}
use dht_crawler.Downloader
use dht_crawler.HashFormat.{bytes_to_hex, hex_char}
use dht_crawler.RequestQueue.{is_queued}
use dht_crawler.RequestTracker.{has_request}
use dht_crawler.Crawler
use dht_crawler.Crawler.Handlers
use dht_crawler.Crawler.Metadata
use dht_crawler.Crawler.Timeouts
use dht_crawler.Crawler.Discovery
use dht_crawler.Crawler.MetadataOnly
use dht_crawler.RateLimiter
use dht_crawler.SmartCrawler
use dht_crawler.WorkerPool
use dht_crawler.Crawler.{DiscoveredTorrent, Database, Crawler, init, start_crawling}
use dht_crawler.Crawler.Handlers.{
  new_torrent, request_metadata_for_discovered_torrents, peer_strings,
}
use dht_crawler.Crawler.Metadata.{
  Alert, dht_get_peers_reply, dht_announce, dht_immutable_item, other_alert, notify, process_alerts,
}
use dht_crawler.Crawler.Timeouts.{mark_timeouts}
use dht_crawler.Crawler.Discovery.{Round, Event, rounds, takes, processes, sends}
use dht_crawler.Crawler.Discovery.Runs.{after, run-idle, run-requested, run-goes_on}
use dht_crawler.Crawler.MetadataOnly.{
  MetadataRound, setup_metadata_database_mode, load_metadata_database_batch, refill, metadata_round,
  metadata_loop,
}
use dht_crawler.Crawler.MetadataOnly.Batches.{metadata_loop_long, metadata_loop_few, refill_short}
use dht_crawler.Crawler.Sequential.{
  Draw, sequential_loop, begin, IsCounted, sequential_loop-IsCounted,
}
use dht_crawler.Crawler.Effects.{process_alerts-counts, found_by, peers_in, total}
use dht_crawler.Crawler.Successes.{notify-success_count}
use dht_crawler.Tests.{toy_libtorrent, hex_hash, base32_hash, binary_hash}

-- A database that stores everything and has these hashes without metadata.
abbrev toy_database : Database
toy_database = record {
  Connection = List Bytes;
  is_connected = λ c. true;
  store_torrent = λ c t. (c, true);
  update_torrent_metadata = λ c h t. (c, true);
  mark_torrent_timed_out = λ c h. (c, true);
  get_torrents_with_missing_metadata = λ c limit offset. (c, take limit (drop offset c));
  get_total_torrents_with_missing_metadata = λ c. (c, pos (length c));
}

abbrev put : List Bytes → Query → List Bytes × Bool
put s q = (s, true)

abbrev alerts : List (Alert toy_libtorrent)
alerts =
    dht_get_peers_reply binary_hash ((bytes "10.0.0.1", 6881) ∷ (bytes "10.0.0.2", 51413) ∷ [])
    ∷ other_alert
    ∷ dht_announce binary_hash
    ∷ []

abbrev round : Round toy_libtorrent
round = record {
  now = 7;
  alerts = alerts;
  random_ids = λ i. binary_hash;
  random_targets = λ i. binary_hash;
  random_hashes = λ i. binary_hash;
  total_queries_sent = pos 8;
}

abbrev events : List (Event toy_libtorrent)
events = rounds round ∷ sends binary_hash ∷ takes 0 ∷ processes 8 0 ∷ rounds round ∷ []

abbrev crawled : Crawler toy_libtorrent toy_database
crawled = after {lt = toy_libtorrent} {db = toy_database} put (pos 100) events [] [] true

run-idle_example :
    (crawled.worker_pool ≡ WorkerPool.init crawled.worker_pool.session 10 (pos 20))
    × (mark_timeouts 90 crawled ≡ crawled)
    × (crawled.bep51_indexer.collected_infohashes ≡ [])
run-idle_example =
    run-idle {lt = toy_libtorrent} {db = toy_database} put (pos 100) events [] [] true 90

abbrev announced : Crawler toy_libtorrent toy_database
announced =
    after {lt = toy_libtorrent} {db = toy_database} put (pos 100)
      (rounds (record round { alerts = dht_announce (0 ∷ 255 ∷ []) ∷ [] }) ∷ []) [] [] false

abbrev announced_torrent : DiscoveredTorrent
announced_torrent = new_torrent 7 (bytes "00ff") (bytes "Announced Torrent") (bytes "DHT_ANNOUNCE")

announced_found : lookup (bytes "00ff") announced.discovered_torrents ≡ some announced_torrent
unfolding lookup Discovery.run Discovery.within_limit SmartCrawler.init RateLimiter.init
    Discovery.query_smart Discovery.step Discovery.discovery_round start_crawling init
    Discovery.at_every Discovery.adjust_limit mark_timeouts Discovery.send_smart_queries
    Discovery.query_bep51_infohashes Discovery.query_bep51 Discovery.queue_collected
    request_metadata_for_discovered_torrents Handlers.request_for_torrents process_alerts
    Metadata.handle_alert Handlers.handle_announce Crawler.auto_queue Crawler.queue_metadata
    Handlers.discover Crawler.store new_torrent Downloader.request_metadata Crawler.lend
    Crawler.give_back contains insert add bytes_to_hex hex_char Bytes-discrete ℕ_discrete
    has_request is_queued Discovery.query_nodes Discovery.nodes_to_query
    Bep51Indexer.query_sample_infohashes Bep51Indexer.init Downloader.init WorkerPool.init
    Timeouts.get_timed_out_requests less
announced_found = refl

run-requested_example :
    (contains (bytes "00ff") announced.metadata_requested ≡ true)
    × (request_metadata_for_discovered_torrents 9 announced ≡ announced)
unfolding new_torrent
run-requested_example =
    run-requested {lt = toy_libtorrent} {db = toy_database} put (pos 100)
      (rounds (record round { alerts = dht_announce (0 ∷ 255 ∷ []) ∷ [] }) ∷ []) [] [] false 9
      (bytes "00ff") announced_torrent announced_found

process_alerts-counts_example :
    ((process_alerts {db = toy_database} 7 alerts (init [] [] false true)).torrents_found
      ≡ 0 + total found_by alerts)
    × ((process_alerts {db = toy_database} 7 alerts (init [] [] false true)).peers_found
        ≡ 0 + total peers_in alerts)
unfolding init
process_alerts-counts_example =
    process_alerts-counts {lt = toy_libtorrent} {db = toy_database} 7 alerts (init [] [] false true)

notify-success_count_example :
    (notify 7 hex_hash crawled).downloader.success_count ≡ crawled.downloader.success_count + 2
notify-success_count_example =
    notify-success_count {lt = toy_libtorrent} {db = toy_database} 7 hex_hash crawled

-- A database with one batch of two hashes.
abbrev short_database : Database
short_database = record toy_database {
  get_torrents_with_missing_metadata = λ c limit offset.
      (c, if ltb offset 2 then take limit (drop offset (hex_hash ∷ base32_hash ∷ [])) else []);
  get_total_torrents_with_missing_metadata = λ c. (c, pos 2);
}

-- The batch is loaded by the setup.
abbrev loaded : Crawler toy_libtorrent short_database
loaded = start_crawling (setup_metadata_database_mode (init [] [] true false))

-- Two hashes wait in the database, none is loaded.
abbrev few : Crawler toy_libtorrent toy_database
few = init [] (hex_hash ∷ base32_hash ∷ []) true false

abbrev waits : MetadataRound toy_libtorrent
waits = record { now = 3; elapsed_seconds = 0; alerts = [] }

metadata_loop_few_example :
    (metadata_loop (waits ∷ waits ∷ []) loaded ≡ metadata_round waits loaded)
    × ((metadata_round waits loaded).shutdown_requested ≡ true)
unfolding start_crawling setup_metadata_database_mode load_metadata_database_batch init
    MetadataOnly.append_batch take drop
metadata_loop_few_example =
    metadata_loop_few {lt = toy_libtorrent} {db = short_database} waits (waits ∷ []) loaded refl
      refl (omega arith) (λ m. refl)

refill_short_example : refill 3 few ≡ load_metadata_database_batch few
unfolding load_metadata_database_batch init MetadataOnly.append_batch take drop
refill_short_example =
    refill_short {lt = toy_libtorrent} {db = toy_database} 3 few refl (omega arith) (omega arith)

-- A crawler with fifty hashes.
abbrev fifty : ℕ → List Bytes
fifty zero = []
fifty (suc n) = hex_hash ∷ fifty n

abbrev full : Crawler toy_libtorrent toy_database
full = record (init [] (hex_hash ∷ []) true false) {
  running = true;
  metadata_only_mode = true;
  metadata_hash_list = fifty 50;
  metadata_db_offset = 50;
}

metadata_loop_long_example :
    ((metadata_loop (waits ∷ waits ∷ []) full).metadata_hash_list ≡ full.metadata_hash_list)
    × ((metadata_loop (waits ∷ waits ∷ []) full).metadata_db_offset ≡ full.metadata_db_offset)
metadata_loop_long_example =
    metadata_loop_long {lt = toy_libtorrent} {db = toy_database} (waits ∷ waits ∷ []) full
      (omega arith)

-- The second draw repeats the first.
abbrev draws : List (Draw toy_libtorrent)
draws =
    record { random_hash = binary_hash; now = 7; alerts = alerts }
    ∷ record { random_hash = binary_hash; now = 8; alerts = [] }
    ∷ record { random_hash = 5 ∷ []; now = 9; alerts = [] }
    ∷ []

sequential_loop-IsCounted_example :
    IsCounted
      (sequential_loop {lt = toy_libtorrent} {db = toy_database} (pos 2) draws (begin crawled))
    × ((sequential_loop {lt = toy_libtorrent} {db = toy_database}
          (pos 2)
          draws
          (begin crawled)).query_count
        ≤ 2)
sequential_loop-IsCounted_example =
    sequential_loop-IsCounted {lt = toy_libtorrent} {db = toy_database} 2 draws crawled

run-goes_on_example : Discovery.step put (pos 100) (rounds round) (crawled, 40) ≡ (
    if Discovery.within_limit (pos 100) round
    then (Discovery.discovery_round put 40 round crawled, 41)
    else (crawled, 40))
run-goes_on_example =
    run-goes_on {lt = toy_libtorrent} {db = toy_database} put (pos 100) events [] [] true round 40
