-- ===== src/Crawler.antt =====
-- DHTTorrentCrawler of src/dht_crawler.cpp: its state, and the calls of its components. All
-- components point to one libtorrent session: it is the crawler's, which lends it to a component for
-- a call. The database is MySQLConnection, of which the crawler knows what its methods answer. A
-- call that reads the clock is given the instant, one for all the reads of a handler. The console,
-- the debug output and the log of errors are left out, and the counters do not overflow.
pub mod Handlers
pub mod Metadata
pub mod Timeouts
pub mod Discovery
pub mod Sequential
pub mod MetadataOnly
pub mod Effects
pub mod Successes
use dht_crawler.Base.{
  ℕ, ◌+◌, ℤ, pos, List, [], ◌∷◌, ◌++◌, Option, none, some, Bool, true, false, ◌&&◌, Bytes, bytes,
  bytes_key, StdMap, StdSet, insert, contains, add, length, if◌then◌else◌,
}
use dht_crawler.Libtorrent.{Libtorrent, dht_of}
use dht_crawler.Downloader
use dht_crawler.Downloader.{Downloader}
use dht_crawler.WorkerPool
use dht_crawler.WorkerPool.{WorkerPool}
use dht_crawler.Bep51Indexer
use dht_crawler.Bep51Indexer.{Bep51Indexer}
use dht_crawler.SmartCrawler
use dht_crawler.SmartCrawler.{SmartCrawler}

-- The instants are those of the steady clock.
pub record DiscoveredTorrent : Type 0 where
  pub info_hash : Bytes
  pub name : Bytes
  pub size : ℕ
  pub num_files : ℤ
  pub peers : List Bytes
  pub file_names : List Bytes
  pub file_sizes : List ℕ
  pub comment : Bytes
  pub created_by : Bytes
  pub creation_date : ℤ
  pub encoding : Bytes
  pub piece_length : ℕ
  pub num_pieces : ℤ
  pub trackers : List Bytes
  pub private_torrent : Bool
  pub magnet_link : Bytes
  pub announce_url : Bytes
  pub announce_list : List Bytes
  pub content_type : Bytes
  pub language : Bytes
  pub category : Bytes
  pub seeders_count : ℤ
  pub leechers_count : ℤ
  pub download_speed : ℕ
  pub discovered_time : ℕ
  pub last_seen_time : ℕ
  pub source : Bytes
  pub metadata_received : Bool
  pub timed_out : Bool

-- MySQLConnection as the crawler calls it.
pub record Database : Type 1 where
  pub Connection : Type 0
  pub is_connected : Connection → Bool
  pub store_torrent : Connection → DiscoveredTorrent → Connection × Bool
  pub update_torrent_metadata : Connection → Bytes → DiscoveredTorrent → Connection × Bool
  pub mark_torrent_timed_out : Connection → Bytes → Connection × Bool
  pub get_torrents_with_missing_metadata : Connection → ℕ → ℕ → Connection × List Bytes
  pub get_total_torrents_with_missing_metadata : Connection → Connection × ℤ

-- smart_mode: m_use_smart_mode, which nothing changes.
pub record Crawler (lt : Libtorrent) (db : Database) : Type 0 where
  pub session : lt.Session
  pub mysql : db.Connection
  pub discovered_torrents : StdMap Bytes DiscoveredTorrent
  pub metadata_requested : StdSet Bytes
  pub running : Bool
  pub shutdown_requested : Bool
  pub torrents_found : ℕ
  pub peers_found : ℕ
  pub metadata_fetched : ℕ
  pub metadata_only_mode : Bool
  pub metadata_hash_list : List Bytes
  pub metadata_database_mode : Bool
  pub metadata_db_offset : ℕ
  pub metadata_db_total_records : ℤ
  pub metadata_db_processed : ℕ
  pub smart_mode : Bool
  pub downloader : Downloader lt
  pub worker_pool : WorkerPool lt
  pub smart_crawler : SmartCrawler (dht_of lt)
  pub bep51_indexer : Bep51Indexer lt.Session
  pub bep51_mode : Bool

abbrev pub unless_none {ℓ} : {A : Type ℓ} → A → Option A → A
unless_none a none = a
unless_none a (some b) = b

module _ {lt : Libtorrent} {db : Database} where
  -- The constructor. The pool has 10 workers and waits 20 seconds.
  unfoldable pub init : lt.Session → db.Connection → Bool → Bool → Crawler lt db
  init session mysql metadata_database_mode bep51_mode = record {
    session = session;
    mysql = mysql;
    discovered_torrents = [];
    metadata_requested = [];
    running = false;
    shutdown_requested = false;
    torrents_found = 0;
    peers_found = 0;
    metadata_fetched = 0;
    metadata_only_mode = false;
    metadata_hash_list = [];
    metadata_database_mode = metadata_database_mode;
    metadata_db_offset = 0;
    metadata_db_total_records = pos 0;
    metadata_db_processed = 0;
    smart_mode = true;
    downloader = Downloader.init (some session);
    worker_pool = WorkerPool.init session 10 (pos 20);
    smart_crawler = SmartCrawler.init session;
    bep51_indexer = Bep51Indexer.init (some session);
    bep51_mode = bep51_mode;
  }

  -- The session as it is now, in the downloader's hands.
  unfoldable pub lend : Crawler lt db → Downloader lt
  lend c = record (c.downloader) { session = some c.session }

  -- The downloader and the session as a call of it leaves them.
  unfoldable pub give_back : Downloader lt → Crawler lt db → Crawler lt db
  give_back d c = record c { downloader = d; session = unless_none c.session d.session }

  -- if (m_mysql->isConnected() && m_mysql->storeTorrent(torrent)): both branches count the torrent.
  unfoldable pub store : DiscoveredTorrent → Crawler lt db → Crawler lt db
  store t c = record c {
    mysql = if db.is_connected c.mysql then (db.store_torrent c.mysql t).0 else c.mysql;
    torrents_found = c.torrents_found + 1;
  }

  -- m_metadata_downloader->request_metadata, with a successful one noted.
  unfoldable pub queue_metadata : ℕ → Bytes → ℤ → Bytes → Crawler lt db → Crawler lt db
  unfolding lend give_back
  queue_metadata now hash priority source c =
      let (d, queued) = Downloader.request_metadata now hash priority source (lend c) in
      let c' = give_back d c in
      if queued then record c' { metadata_requested = add hash c.metadata_requested } else c'

  -- The same unless it was requested before.
  unfoldable pub auto_queue : ℕ → Bytes → ℤ → Bytes → Crawler lt db → Crawler lt db
  auto_queue now hash priority source c =
      if contains hash c.metadata_requested then c else queue_metadata now hash priority source c

  unfoldable pub stop : Crawler lt db → Crawler lt db
  stop c = record c { shutdown_requested = true; running = false }

  -- m_running = true, at the start of startCrawling.
  unfoldable pub start_crawling : Crawler lt db → Crawler lt db
  start_crawling c = record c { running = true }
