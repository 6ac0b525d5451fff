-- ===== src/MySqlConnection/Interface.antt =====
-- MySQLConnection as the crawler's database, and the crawler without a connection.
use dht_crawler.Base.{ℕ, pos, ◌≡◌, List, [], true, false, Bytes, arith}
use dht_crawler.Libtorrent.{Libtorrent}
use dht_crawler.Crawler.{DiscoveredTorrent, Database, Crawler, start_crawling}
use dht_crawler.Crawler.MetadataOnly.{MetadataRound, setup_metadata_database_mode, metadata_loop}
use dht_crawler.Crawler.MetadataOnly.Batches.{metadata_loop_stopped}
use dht_crawler.MySqlConnection.{MySql, MySqlConnection, log_error}
use dht_crawler.MySqlConnection.Store.{
  store_torrent, update_torrent_metadata, mark_torrent_timed_out,
}
use dht_crawler.MySqlConnection.Select.{
  get_torrents_with_missing_metadata, get_total_torrents_with_missing_metadata,
}

abbrev pub mysql_database : MySql → Database
mysql_database my = record {
  Connection = MySqlConnection my;
  is_connected = λ c. c.connected;
  store_torrent = λ c t. store_torrent t c;
  update_torrent_metadata = λ c h t. update_torrent_metadata h t c;
  mark_torrent_timed_out = λ c h. mark_torrent_timed_out h c;
  get_torrents_with_missing_metadata =
      λ c limit offset. get_torrents_with_missing_metadata limit offset c;
  get_total_torrents_with_missing_metadata = λ c. get_total_torrents_with_missing_metadata c;
}

module _ {my : MySql} where
  -- Without a connection every method gives its failure, and no statement is sent.
  pub not_connected :
      (c : MySqlConnection my) (t : DiscoveredTorrent) (h : Bytes) (limit offset : ℕ)
      → c.connected ≡ false
      → (store_torrent t c ≡ (c, false))
        × (update_torrent_metadata h t c ≡ (c, false))
        × (mark_torrent_timed_out h c ≡ (c, false))
        × (get_torrents_with_missing_metadata limit offset c ≡ (c, []))
        × (get_total_torrents_with_missing_metadata c ≡ (c, pos 0))
  unfolding store_torrent update_torrent_metadata mark_torrent_timed_out
      get_torrents_with_missing_metadata get_total_torrents_with_missing_metadata log_error
  not_connected c t h limit offset e = ground arith

module _ {lt : Libtorrent} {my : MySql} where
  -- In database mode without a connection the crawler requests its own shutdown at once, has sent
  -- nothing to the database, and its loop makes no round.
  pub setup-not_connected :
      (rs : List (MetadataRound lt)) (c : Crawler lt (mysql_database my))
      → c.mysql.connected ≡ false
      → let c' = setup_metadata_database_mode c in
        (c'.shutdown_requested ≡ true)
        × (c'.mysql ≡ c.mysql)
        × (metadata_loop rs (start_crawling c') ≡ start_crawling c')
  unfolding setup_metadata_database_mode start_crawling get_total_torrents_with_missing_metadata
      log_error
  setup-not_connected rs c e =
      let shut : (setup_metadata_database_mode c).shutdown_requested ≡ true = ground (arith, e) in
      (
        shut,
        ground (arith, e),
        metadata_loop_stopped rs (start_crawling (setup_metadata_database_mode c)) shut,
      )
