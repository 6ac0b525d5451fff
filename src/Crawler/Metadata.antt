-- ===== src/Crawler/Metadata.antt =====
-- handleMetadataReceived and processAlerts of src/dht_crawler.cpp, with
-- extract_comprehensive_metadata of src/enhanced_metadata_manager.hpp.
use dht_crawler.Base.{
  ℕ, ◌+◌, ℤ, pos, List, [], ◌∷◌, ◌++◌, Option, none, some, Bool, true, false, Bytes, bytes,
  bytes_key, lookup, if◌then◌else◌, map,
}
use dht_crawler.Libtorrent.{Libtorrent}
use dht_crawler.HashFormat.{bytes_to_hex}
use dht_crawler.ContentType.{determine_content_type}
use dht_crawler.Downloader
use dht_crawler.WorkerPool
use dht_crawler.Crawler.{DiscoveredTorrent, Database, Crawler, lend, give_back}
use dht_crawler.Crawler.Handlers.{handle_peer_reply, handle_announce, handle_immutable_item}

-- lt::torrent_info and its file_storage, as the code reads them. No accessor throws.
pub record FileEntry : Type 0 where
  pub path : Bytes
  pub size : ℕ
  pub offset : ℕ
  pub pad_file : Bool
  pub executable : Bool
  pub hidden : Bool
  pub symlink : Bool

pub record TorrentInfo : Type 0 where
  pub name : Bytes
  pub total_size : ℕ
  pub num_pieces : ℤ
  pub piece_length : ℕ
  pub comment : Bytes
  pub creator : Bytes
  pub creation_date : ℤ
  pub priv : Bool
  pub num_files : ℤ
  pub magnet_uri : Bytes
  pub trackers : List Bytes
  pub files : List FileEntry
  pub web_seeds : List Bytes

pub record EnhancedTorrentMetadata : Type 0 where
  pub info_hash : Bytes
  pub name : Bytes
  pub total_size : ℕ
  pub num_files : ℤ
  pub num_pieces : ℤ
  pub piece_length : ℕ
  pub comment : Bytes
  pub created_by : Bytes
  pub creation_date : ℤ
  pub magnet_link : Bytes
  pub trackers : List Bytes
  pub tracker_tiers : List ℤ
  pub file_names : List Bytes
  pub file_sizes : List ℕ
  pub file_offsets : List ℕ
  pub file_flags : List Bytes
  pub web_seeds : List Bytes
  pub private_torrent : Bool
  pub encoding : Bytes

-- string.pop_back() of a string that is not empty.
unfoldable pub pop_back : Bytes → Bytes
pop_back [] = []
pop_back (c ∷ []) = []
pop_back (c ∷ d ∷ cs) = c ∷ pop_back (d ∷ cs)

-- flag_str, without the trailing comma.
unfoldable pub flag_string : FileEntry → Bytes
flag_string f = pop_back (
    (if f.pad_file then bytes "pad," else [])
    ++ ((if f.executable then bytes "exec," else [])
        ++ ((if f.hidden then bytes "hidden," else [])
            ++ (if f.symlink then bytes "symlink," else []))))

unfoldable pub extract_comprehensive_metadata : TorrentInfo → Bytes → EnhancedTorrentMetadata
extract_comprehensive_metadata ti info_hash = record {
  info_hash = info_hash;
  name = ti.name;
  total_size = ti.total_size;
  num_files = ti.num_files;
  num_pieces = ti.num_pieces;
  piece_length = ti.piece_length;
  comment = ti.comment;
  created_by = ti.creator;
  creation_date = ti.creation_date;
  magnet_link = ti.magnet_uri;
  trackers = ti.trackers;
  tracker_tiers = map (λ _. pos 0) ti.trackers;
  file_names = map (λ f. f.path) ti.files;
  file_sizes = map (λ f. f.size) ti.files;
  file_offsets = map (λ f. f.offset) ti.files;
  file_flags = map flag_string ti.files;
  web_seeds = ti.web_seeds;
  private_torrent = ti.priv;
  encoding = [];
}

-- What the code writes of the metadata into a torrent.
unfoldable pub with_metadata : ℕ → EnhancedTorrentMetadata → DiscoveredTorrent → DiscoveredTorrent
with_metadata now m t = record t {
  magnet_link = m.magnet_link;
  name = m.name;
  size = m.total_size;
  num_files = m.num_files;
  num_pieces = m.num_pieces;
  piece_length = m.piece_length;
  comment = m.comment;
  created_by = m.created_by;
  creation_date = m.creation_date;
  private_torrent = m.private_torrent;
  metadata_received = true;
  last_seen_time = now;
  file_names = m.file_names;
  file_sizes = m.file_sizes;
  trackers = m.trackers;
  announce_list = m.trackers;
  announce_url = elim m.trackers [ [] ↦ t.announce_url | url ∷ _ ↦ url ];
  content_type = determine_content_type m.file_names;
}

module _ {lt : Libtorrent} {db : Database} where
  -- The torrent that the metadata goes to: in metadata-only mode a new one, of which `blank` are the
  -- fields that the code leaves as they are; none: it is not known.
  unfoldable pub torrent_for :
      ℕ → DiscoveredTorrent → Bytes → Crawler lt db → Option DiscoveredTorrent
  torrent_for now blank hash_str c =
      if c.metadata_only_mode
      then some (record blank {
        info_hash = hash_str;
        source = bytes "METADATA_ONLY";
        metadata_received = false;
        timed_out = false;
        discovered_time = now;
        last_seen_time = now;
      })
      else lookup hash_str c.discovered_torrents

  -- The update of the database and the counters.
  unfoldable pub save_metadata : Bytes → DiscoveredTorrent → Crawler lt db → Crawler lt db
  save_metadata hash_str t c =
      if db.is_connected c.mysql
      then (if c.metadata_database_mode
          then (let (mysql, saved) = db.update_torrent_metadata c.mysql hash_str t in
              if saved
              then record c {
                mysql = mysql;
                metadata_db_processed = c.metadata_db_processed + 1;
                metadata_fetched = c.metadata_fetched + 1;
              }
              else record c { mysql = mysql })
          else (let (mysql, saved) = db.store_torrent c.mysql t in
              if saved
              then record c { mysql = mysql; metadata_fetched = c.metadata_fetched + 1 }
              else record c { mysql = mysql }))
      else record c { metadata_fetched = c.metadata_fetched + 1 }

  -- The downloader and the pool are told.
  unfoldable pub notify : ℕ → Bytes → Crawler lt db → Crawler lt db
  unfolding lend give_back
  notify now hash_str c =
      let d = Downloader.log_success (Downloader.handle_metadata_received now hash_str (lend c)) in
      record (give_back d c) {
        worker_pool = WorkerPool.handle_metadata_received hash_str c.worker_pool;
      }

  -- The end of the handler: of a torrent that is not known nothing is saved.
  unfoldable pub save_and_remove :
      ℕ → lt.Handle → Bytes → TorrentInfo → Option DiscoveredTorrent → Crawler lt db → Crawler lt db
  save_and_remove now handle hash_str ti none c = c
  save_and_remove now handle hash_str ti (some t) c =
      let metadata = extract_comprehensive_metadata ti hash_str in
      let saved = save_metadata hash_str (with_metadata now metadata t) c in
      record saved { session = lt.remove_torrent saved.session handle }

  unfoldable pub handle_metadata_received :
      ℕ → DiscoveredTorrent → lt.Handle → Bytes → Option TorrentInfo → Crawler lt db → Crawler lt db
  handle_metadata_received now blank handle info_hash none c = c
  handle_metadata_received now blank handle info_hash (some ti) c =
      let hash_str = bytes_to_hex info_hash in
      let notified = notify now hash_str c in
      save_and_remove now handle hash_str ti (torrent_for now blank hash_str notified) notified

-- What processAlerts tells apart.
pub data Alert (lt : Libtorrent) : Type 0 where
  dht_get_peers_reply : Bytes → List (Bytes × ℕ) → Alert lt
  dht_announce : Bytes → Alert lt
  dht_immutable_item : Bytes → Alert lt
  metadata_received : DiscoveredTorrent → lt.Handle → Bytes → Option TorrentInfo → Alert lt
  other_alert : Alert lt

module _ {lt : Libtorrent} {db : Database} where
  unfoldable pub handle_alert : ℕ → Alert lt → Crawler lt db → Crawler lt db
  handle_alert now (dht_get_peers_reply info_hash []) c = c
  handle_alert now (dht_get_peers_reply info_hash (p ∷ ps)) c =
      handle_peer_reply now info_hash (p ∷ ps) c
  handle_alert now (dht_announce info_hash) c = handle_announce now info_hash c
  handle_alert now (dht_immutable_item target) c = handle_immutable_item now target c
  handle_alert now (metadata_received blank handle info_hash file) c =
      handle_metadata_received now blank handle info_hash file c
  handle_alert now other_alert c = c

  -- The loop over the alerts that pop_alerts gave.
  unfoldable pub process_alerts : ℕ → List (Alert lt) → Crawler lt db → Crawler lt db
  process_alerts now [] c = c
  process_alerts now (a ∷ alerts) c = process_alerts now alerts (handle_alert now a c)
