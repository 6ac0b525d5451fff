-- ===== src/Crawler/Handlers.antt =====
-- The handlers of alerts that discover a torrent, and the request of metadata for the discovered.
use dht_crawler.Base.{
  ℕ, ◌+◌, ℤ, pos, List, [], ◌∷◌, ◌++◌, Bool, true, false, ◌&&◌, not, Bytes, bytes, Bytes-discrete,
  bytes_key, StdMap, insert, contains, add, length, leb, if◌then◌else◌,
}
use dht_crawler.Libtorrent.{Libtorrent}
use dht_crawler.HashFormat.{bytes_to_hex}
use dht_crawler.MetadataProtocol.{to_string}
use dht_crawler.SmartCrawler.{record_incoming_observation}
use dht_crawler.Downloader
use dht_crawler.WorkerPool
use dht_crawler.WorkerPool.{WorkerPool}
use dht_crawler.Crawler.{DiscoveredTorrent, Database, Crawler, lend, give_back, store, auto_queue}

-- The fields that the three handlers set alike.
unfoldable pub new_torrent : ℕ → Bytes → Bytes → Bytes → DiscoveredTorrent
new_torrent now hash_str name source = record {
  info_hash = hash_str;
  name = name;
  size = 0;
  num_files = pos 0;
  peers = [];
  file_names = [];
  file_sizes = [];
  comment = [];
  created_by = [];
  creation_date = pos 0;
  encoding = [];
  piece_length = 0;
  num_pieces = pos 0;
  trackers = [];
  private_torrent = false;
  magnet_link = bytes "magnet:?xt=urn:btih:" ++ hash_str;
  announce_url = [];
  announce_list = [];
  content_type = [];
  language = [];
  category = [];
  seeders_count = pos 0;
  leechers_count = pos 0;
  download_speed = 0;
  discovered_time = now;
  last_seen_time = now;
  source = source;
  metadata_received = false;
  timed_out = false;
}

-- peer.address().to_string() + ":" + std::to_string(peer.port()).
unfoldable pub peer_strings : List (Bytes × ℕ) → List Bytes
peer_strings [] = []
peer_strings ((address, port) ∷ peers) =
    (address ++ (bytes ":" ++ to_string (pos port))) ∷ peer_strings peers

-- The priority of a request for a discovered torrent.
unfoldable pub priority_of : Bytes → ℤ
priority_of source = elim (Bytes-discrete source (bytes "DHT_PEERS")) [
  | yes _ ↦ pos 3
  | no _ ↦ elim (Bytes-discrete source (bytes "DHT_ANNOUNCE")) [ yes _ ↦ pos 2 | no _ ↦ pos 1 ]
]

module _ {lt : Libtorrent} {db : Database} where
  -- Store in memory and database.
  unfoldable pub discover : DiscoveredTorrent → Crawler lt db → Crawler lt db
  discover t c =
      store t (record c { discovered_torrents = insert t.info_hash t c.discovered_torrents })

  -- if (m_smart_crawler && m_use_smart_mode) record_incoming_observation(...).
  unfoldable pub observe : ℕ → Bytes → List Bytes → Crawler lt db → Crawler lt db
  observe now hash_str peers c =
      if c.smart_mode
      then record c {
        smart_crawler =
            record_incoming_observation
              (record {
                infohash = hash_str;
                source = bytes "peer_reply";
                observed_time = now;
                peer_count = pos (length peers);
                peer_addresses = peers;
              })
              c.smart_crawler;
      }
      else c

  unfoldable pub handle_peer_reply : ℕ → Bytes → List (Bytes × ℕ) → Crawler lt db → Crawler lt db
  unfolding discover observe
  handle_peer_reply now info_hash alert_peers c =
      let hash_str = bytes_to_hex info_hash in
      let peers = peer_strings alert_peers in
      let torrent =
        record (new_torrent now hash_str (bytes "Unknown Torrent") (bytes "DHT_PEERS")) {
          peers = peers;
        } in
      auto_queue now hash_str (pos 3) (bytes "DHT_PEERS") (
        discover torrent (
          observe now hash_str peers
            (record c { peers_found = c.peers_found + length alert_peers })))

  unfoldable pub handle_announce : ℕ → Bytes → Crawler lt db → Crawler lt db
  unfolding discover
  handle_announce now info_hash c =
      let hash_str = bytes_to_hex info_hash in
      auto_queue now hash_str (pos 2) (bytes "DHT_ANNOUNCE")
        (discover (new_torrent now hash_str (bytes "Announced Torrent") (bytes "DHT_ANNOUNCE")) c)

  unfoldable pub handle_immutable_item : ℕ → Bytes → Crawler lt db → Crawler lt db
  unfolding discover
  handle_immutable_item now target c =
      let hash_str = bytes_to_hex target in
      auto_queue now hash_str (pos 1) (bytes "DHT_ITEM")
        (discover (new_torrent now hash_str (bytes "DHT Item") (bytes "DHT_ITEM")) c)

  -- A failure is marked as requested too. The second component says whether the request was queued.
  unfoldable pub request_for_torrent : ℕ → DiscoveredTorrent → Crawler lt db → Crawler lt db × Bool
  request_for_torrent now t c =
      let (p, queued) =
        WorkerPool.queue_request now t.info_hash (priority_of t.source) t.source
          (record (c.worker_pool) { session = c.session }) in
      (
        record c {
          worker_pool = p;
          session = p.session;
          metadata_requested = add t.info_hash c.metadata_requested;
        },
        queued,
      )

  -- The loop, with `requested` so far; at most 20 are requested.
  unfoldable pub request_for_torrents :
      ℕ → ℕ → StdMap Bytes DiscoveredTorrent → Crawler lt db → Crawler lt db
  request_for_torrents now requested [] c = c
  request_for_torrents now requested ((_, t) ∷ rest) c = elim (leb 20 requested) [
    | true ↦ c
    | false ↦ elim (not t.metadata_received && not (contains t.info_hash c.metadata_requested)) [
      | true ↦
          let (c', queued) = request_for_torrent now t c in
          request_for_torrents now (requested + (if queued then 1 else 0)) rest c'
      | false ↦ request_for_torrents now requested rest c
    ]
  ]

  unfoldable pub request_metadata_for_discovered_torrents : ℕ → Crawler lt db → Crawler lt db
  request_metadata_for_discovered_torrents now c =
      request_for_torrents now 0 c.discovered_torrents c

  -- A hash is marked as requested even if the request fails, to avoid repeated attempts.
  unfoldable pub request_metadata_for_hash : ℕ → Bytes → Crawler lt db → Crawler lt db
  unfolding lend give_back
  request_metadata_for_hash now hash c =
      let (d, queued) = Downloader.request_metadata now hash (pos 4) (bytes "MANUAL") (lend c) in
      record (give_back (if queued then d else Downloader.log_failure d) c) {
        metadata_requested = add hash c.metadata_requested;
      }
