-- ===== src/Crawler/MetadataOnly/Steady.antt =====
-- What alerts, timeouts and requests leave alone: the list of hashes, the mode and the flags.
use dht_crawler.Base.{
  ℕ, ◌≡◌, refl, List, [], ◌∷◌, Option, none, some, Bool, ℤ, Bytes, contains, bytes_key, if_both,
  ◌∙◌,
}
use dht_crawler.Libtorrent.{Libtorrent}
use dht_crawler.Downloader
use dht_crawler.Crawler.{
  DiscoveredTorrent, Database, Crawler, lend, give_back, store, queue_metadata, auto_queue,
}
use dht_crawler.Crawler.Handlers.{
  discover, observe, handle_peer_reply, handle_announce, handle_immutable_item, new_torrent,
  request_metadata_for_hash,
}
use dht_crawler.Crawler.Metadata.{
  Alert, TorrentInfo, dht_get_peers_reply, dht_announce, dht_immutable_item, metadata_received,
  other_alert, notify, save_metadata, save_and_remove, handle_metadata_received, handle_alert,
  process_alerts,
}
use dht_crawler.Crawler.MetadataOnly.{mark_late, request_all}

module _ {lt : Libtorrent} {db : Database} where
  -- The fields in question.
  abbrev pub steady_part : Crawler lt db → List Bytes × ℕ × Bool × Bool × Bool
  steady_part c = (
    c.metadata_hash_list, c.metadata_db_offset, c.metadata_database_mode, c.running,
    c.shutdown_requested,
  )

  abbrev pub Steady : Crawler lt db → Crawler lt db → Type 0
  Steady c c' = steady_part c' ≡ steady_part c

  auto_queue-Steady :
      (now : ℕ) (h : Bytes) (p : ℤ) (src : Bytes) (c : Crawler lt db)
      → Steady c (auto_queue now h p src c)
  unfolding auto_queue queue_metadata give_back
  auto_queue-Steady now h p src c =
      if_both (Steady c) (contains h c.metadata_requested) refl
        (if_both (Steady c) (Downloader.request_metadata now h p src (lend c)).1 refl refl)

  discover-Steady :
      (now : ℕ) (p : ℤ) (src : Bytes) (t : DiscoveredTorrent) (c : Crawler lt db)
      → Steady c (auto_queue now t.info_hash p src (discover t c))
  unfolding discover store
  discover-Steady now p src t c = auto_queue-Steady now t.info_hash p src (discover t c)

  handle_peer_reply-Steady :
      (now : ℕ) (info_hash : Bytes) (peers : List (Bytes × ℕ)) (c : Crawler lt db)
      → Steady c (handle_peer_reply now info_hash peers c)
  unfolding handle_peer_reply new_torrent observe
  handle_peer_reply-Steady now info_hash peers c =
      discover-Steady now _ _ _ _ ∙ if_both (Steady c) c.smart_mode refl refl

  save_metadata-Steady :
      (h : Bytes) (t : DiscoveredTorrent) (c : Crawler lt db) → Steady c (save_metadata h t c)
  unfolding save_metadata
  save_metadata-Steady h t c =
      if_both (Steady c) (db.is_connected c.mysql)
        (if_both (Steady c) c.metadata_database_mode
          (if_both (Steady c) (db.update_torrent_metadata c.mysql h t).1 refl refl)
          (if_both (Steady c) (db.store_torrent c.mysql t).1 refl refl))
        refl

  save_and_remove-Steady :
      (now : ℕ) (handle : lt.Handle) (h : Bytes) (ti : TorrentInfo) (o : Option DiscoveredTorrent)
      (c : Crawler lt db)
      → Steady c (save_and_remove now handle h ti o c)
  unfolding save_and_remove
  save_and_remove-Steady now handle h ti none c = refl
  save_and_remove-Steady now handle h ti (some t) c = save_metadata-Steady h _ c

  handle_alert-Steady :
      (now : ℕ) (a : Alert lt) (c : Crawler lt db) → Steady c (handle_alert now a c)
  unfolding handle_alert handle_announce handle_immutable_item handle_metadata_received new_torrent
      notify give_back
  handle_alert-Steady now (dht_get_peers_reply info_hash []) c = refl
  handle_alert-Steady now (dht_get_peers_reply info_hash (p ∷ ps)) c =
      handle_peer_reply-Steady now info_hash (p ∷ ps) c
  handle_alert-Steady now (dht_announce info_hash) c = discover-Steady now _ _ _ c
  handle_alert-Steady now (dht_immutable_item target) c = discover-Steady now _ _ _ c
  handle_alert-Steady now (metadata_received blank handle info_hash none) c = refl
  handle_alert-Steady now (metadata_received blank handle info_hash (some ti)) c =
      save_and_remove-Steady now handle _ ti _ _
  handle_alert-Steady now other_alert c = refl

  pub process_alerts-Steady :
      (now : ℕ) (alerts : List (Alert lt)) (c : Crawler lt db)
      → Steady c (process_alerts now alerts c)
  unfolding process_alerts
  process_alerts-Steady now [] c = refl
  process_alerts-Steady now (a ∷ alerts) c =
      process_alerts-Steady now alerts _ ∙ handle_alert-Steady now a c

  pub mark_late-Steady : (now : ℕ) (c : Crawler lt db) → Steady c (mark_late now c)
  unfolding mark_late
  mark_late-Steady now c = if_both (Steady c) c.metadata_database_mode refl refl

  pub request_all-Steady :
      (now : ℕ) (hs : List Bytes) (c : Crawler lt db) → Steady c (request_all now hs c)
  unfolding request_all request_metadata_for_hash give_back
  request_all-Steady now [] c = refl
  request_all-Steady now (h ∷ hs) c = request_all-Steady now hs _
