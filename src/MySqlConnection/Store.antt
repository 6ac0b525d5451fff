-- ===== src/MySqlConnection/Store.antt =====
-- The statements of MySQLConnection that write torrents and peers.
pub mod Peers
use dht_crawler.Base.{
  ℕ, ◌+◌, ℤ, pos, negsuc, ltb_ℤ, List, [], ◌∷◌, ◌++◌, Option, none, some, Bool, true, false, Bytes,
  bytes, map, if◌then◌else◌,
}
use dht_crawler.MetadataProtocol.{to_string}
use dht_crawler.Stoi.{stoi}
use dht_crawler.Crawler.{DiscoveredTorrent, Database}
use dht_crawler.MySqlConnection.{
  MySql, MySqlConnection, concat, joined, sql_bool, split_peer, quoted, json_array, send,
  last_errno, last_error, log_error, log_query_error, log_not_connected, creation_date_str,
}

-- The first of a list, or the empty text.
abbrev pub first_or_empty : List Bytes → Bytes
first_or_empty [] = []
first_or_empty (t ∷ ts) = t

module _ {my : MySql} where
  -- The statement of storeTorrent.
  unfoldable pub store_statement : MySqlConnection my → DiscoveredTorrent → Bytes
  unfolding concat joined quoted json_array creation_date_str
  store_statement c t = concat (
      bytes
        "INSERT INTO discovered_torrents (info_hash, name, size, num_files, file_names, file_sizes, "
      ∷ bytes "comment, created_by, creation_date, encoding, piece_length, num_pieces, "
      ∷ bytes "trackers, private_torrent, source, metadata_received, timed_out, magnet_link, "
      ∷ bytes "announce_url, announce_list, content_type, language, category, "
      ∷ bytes "seeders_count, leechers_count, download_speed, last_seen_at) VALUES ("
      ∷ quoted c t.info_hash
      ∷ bytes ", "
      ∷ quoted c t.name
      ∷ bytes ", "
      ∷ to_string (pos t.size)
      ∷ bytes ", "
      ∷ to_string t.num_files
      ∷ bytes ", "
      ∷ quoted c (joined (bytes ", ") t.file_names)
      ∷ bytes ", "
      ∷ quoted c (
          bytes "["
          ++ (joined (bytes ", ") (map (λ n. to_string (pos n)) t.file_sizes) ++ bytes "]"))
      ∷ bytes ", "
      ∷ quoted c t.comment
      ∷ bytes ", "
      ∷ quoted c t.created_by
      ∷ bytes ", "
      ∷ creation_date_str my t
      ∷ bytes ", "
      ∷ quoted c t.encoding
      ∷ bytes ", "
      ∷ to_string (pos t.piece_length)
      ∷ bytes ", "
      ∷ to_string t.num_pieces
      ∷ bytes ", "
      ∷ quoted c (json_array c t.trackers)
      ∷ bytes ", "
      ∷ sql_bool t.private_torrent
      ∷ bytes ", "
      ∷ quoted c t.source
      ∷ bytes ", "
      ∷ sql_bool t.metadata_received
      ∷ bytes ", "
      ∷ sql_bool t.timed_out
      ∷ bytes ", "
      ∷ quoted c t.magnet_link
      ∷ bytes ", "
      ∷ quoted c t.announce_url
      ∷ bytes ", "
      ∷ quoted c (json_array c t.announce_list)
      ∷ bytes ", "
      ∷ quoted c t.content_type
      ∷ bytes ", "
      ∷ quoted c t.language
      ∷ bytes ", "
      ∷ quoted c t.category
      ∷ bytes ", "
      ∷ to_string t.seeders_count
      ∷ bytes ", "
      ∷ to_string t.leechers_count
      ∷ bytes ", "
      ∷ to_string (pos t.download_speed)
      ∷ bytes ", CURRENT_TIMESTAMP) ON DUPLICATE KEY UPDATE name = VALUES(name), "
      ∷ bytes
          "size = VALUES(size), num_files = VALUES(num_files), file_names = VALUES(file_names), "
      ∷ bytes "file_sizes = VALUES(file_sizes), comment = VALUES(comment), "
      ∷ bytes "created_by = VALUES(created_by), creation_date = VALUES(creation_date), "
      ∷ bytes "encoding = VALUES(encoding), piece_length = VALUES(piece_length), "
      ∷ bytes "num_pieces = VALUES(num_pieces), trackers = VALUES(trackers), "
      ∷ bytes "private_torrent = VALUES(private_torrent), "
      ∷ bytes "metadata_received = VALUES(metadata_received), magnet_link = VALUES(magnet_link), "
      ∷ bytes "announce_url = VALUES(announce_url), announce_list = VALUES(announce_list), "
      ∷ bytes "content_type = VALUES(content_type), language = VALUES(language), "
      ∷ bytes "category = VALUES(category), seeders_count = VALUES(seeders_count), "
      ∷ bytes "leechers_count = VALUES(leechers_count), download_speed = VALUES(download_speed), "
      ∷ bytes "last_seen_at = CURRENT_TIMESTAMP, updated_at = CURRENT_TIMESTAMP"
      ∷ [])

  -- The statement for a peer; the port stands as it is.
  unfoldable pub peer_statement : MySqlConnection my → DiscoveredTorrent → Bytes → Bytes → Bytes
  unfolding concat quoted
  peer_statement c t address port_str = concat (
      bytes "INSERT IGNORE INTO discovered_peers (torrent_hash, peer_address, peer_port, source) "
      ∷ bytes "VALUES ("
      ∷ quoted c t.info_hash
      ∷ bytes ", "
      ∷ quoted c address
      ∷ bytes ", "
      ∷ port_str
      ∷ bytes ", "
      ∷ quoted c t.source
      ∷ bytes ")"
      ∷ [])

  -- The loop over the peers: one that fails is passed over.
  unfoldable pub store_peers :
      DiscoveredTorrent → List Bytes → MySqlConnection my → MySqlConnection my
  store_peers t [] c = c
  store_peers t (peer ∷ peers) c = store_peers t peers (elim (split_peer peer) [
    | none ↦ c
    | some (address, port_str) ↦ (send (peer_statement c t address port_str) c).0
  ])

  unfoldable pub store_torrent : DiscoveredTorrent → MySqlConnection my → MySqlConnection my × Bool
  unfolding store_peers
  store_torrent t c =
      if c.connected
      then (let (c', stored) = send (store_statement c t) c in
          if stored then (store_peers t t.peers c', true) else (
            log_query_error (bytes "MySQLConnection::storeTorrent")
                (bytes "info_hash=" ++ t.info_hash) c',
            false,
          ))
      else (log_not_connected (bytes "MySQLConnection::storeTorrent") c, false)

  unfoldable pub mark_torrent_timed_out : Bytes → MySqlConnection my → MySqlConnection my × Bool
  unfolding quoted
  mark_torrent_timed_out info_hash c =
      if c.connected
      then (let (c', done) =
            send
              (bytes "UPDATE discovered_torrents SET timed_out = TRUE WHERE info_hash = "
                ++ quoted c info_hash)
              c in
          if done then (c', true) else (
            log_query_error (bytes "MySQLConnection::markTorrentTimedOut")
                (bytes "info_hash=" ++ info_hash) c',
            false,
          ))
      else (log_not_connected (bytes "MySQLConnection::markTorrentTimedOut") c, false)

  unfoldable pub update_statement : MySqlConnection my → Bytes → DiscoveredTorrent → Bytes
  unfolding concat quoted
  update_statement c info_hash t = concat (
      bytes "UPDATE discovered_torrents SET name = "
      ∷ quoted c t.name
      ∷ bytes ", size = "
      ∷ to_string (pos t.size)
      ∷ bytes ", num_files = "
      ∷ to_string t.num_files
      ∷ bytes ", file_names = "
      ∷ quoted c (first_or_empty t.file_names)
      ∷ bytes ", file_sizes = "
      ∷ quoted c (first_or_empty (map (λ n. to_string (pos n)) t.file_sizes))
      ∷ bytes ", comment = "
      ∷ quoted c t.comment
      ∷ bytes ", created_by = "
      ∷ quoted c t.created_by
      ∷ bytes ", creation_date = "
      ∷ (if ltb_ℤ (pos 0) t.creation_date
          then bytes "FROM_UNIXTIME(" ++ (to_string t.creation_date ++ bytes ")")
          else bytes "NULL")
      ∷ bytes ", encoding = "
      ∷ quoted c t.encoding
      ∷ bytes ", piece_length = "
      ∷ to_string (pos t.piece_length)
      ∷ bytes ", num_pieces = "
      ∷ to_string t.num_pieces
      ∷ bytes ", trackers = "
      ∷ quoted c (first_or_empty t.trackers)
      ∷ bytes ", private_torrent = "
      ∷ sql_bool t.private_torrent
      ∷ bytes ", content_type = "
      ∷ quoted c t.content_type
      ∷ bytes ", language = "
      ∷ quoted c t.language
      ∷ bytes ", category = "
      ∷ quoted c t.category
      ∷ bytes ", metadata_received = TRUE, timed_out = FALSE, updated_at = CURRENT_TIMESTAMP "
      ∷ bytes "WHERE info_hash = "
      ∷ quoted c info_hash
      ∷ [])

  unfoldable pub update_torrent_metadata :
      Bytes → DiscoveredTorrent → MySqlConnection my → MySqlConnection my × Bool
  update_torrent_metadata info_hash t c =
      if c.connected
      then (let (c', done) = send (update_statement c info_hash t) c in
          if done
          then (c', true)
          else (log_query_error (bytes "MySQLConnection::updateTorrentMetadata") [] c', false))
      else (log_not_connected (bytes "MySQLConnection::updateTorrentMetadata") c, false)
