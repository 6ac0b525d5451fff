-- ===== src/Crawler/Discovery/Alerts.antt =====
-- No alert wakes the pool: each torrent that an alert brings is requested at once.
use dht_crawler.Base.{ℕ, List, [], ◌∷◌, Option, none, some, Bytes, bytes_key, arith}
use dht_crawler.Libtorrent.{Libtorrent}
use dht_crawler.HashFormat.{bytes_to_hex}
use dht_crawler.WorkerPool
use dht_crawler.WorkerPool.{
  WorkerPool, Worker, held_by, idle_workers, take_request, process_metadata_request,
  cleanup_timeouts, split_timed_out, count_timeouts, MetadataRequest,
}
use dht_crawler.Crawler.{DiscoveredTorrent, Database, Crawler, give_back}
use dht_crawler.Crawler.Metadata.{
  Alert, TorrentInfo, dht_get_peers_reply, dht_announce, dht_immutable_item, metadata_received,
  other_alert, notify, save_metadata, handle_metadata_received, handle_alert, process_alerts,
  save_and_remove,
}
use dht_crawler.Crawler.Discovery.Unused.{IsUnused-rule, received-IsUnused}
use dht_crawler.Crawler.Discovery.Idle.{
  IsDormant, handle_peer_reply-IsDormant, handle_announce-IsDormant,
  handle_immutable_item-IsDormant,
}

module _ {lt : Libtorrent} {db : Database} where
  notify-IsDormant :
      (now : ℕ) (h : Bytes) (c : Crawler lt db) → IsDormant c → IsDormant (notify now h c)
  unfolding notify give_back
  notify-IsDormant now h c v = record {
    requested = v.requested;
    pool =
        IsUnused-rule (WorkerPool.handle_metadata_received h) (received-IsUnused h) c.worker_pool
          v.pool;
    collected = v.collected;
    observed = v.observed;
    running = v.running;
  }

  save_metadata-IsDormant :
      (h : Bytes) (t : DiscoveredTorrent) (c : Crawler lt db)
      → IsDormant c
      → IsDormant (save_metadata h t c)
  unfolding save_metadata
  save_metadata-IsDormant h t c v = record {
    requested = ground (arith, v.requested);
    pool = ground (arith, v.pool);
    collected = ground (arith, v.collected);
    observed = ground (arith, v.observed);
    running = ground (arith, v.running);
  }

  save_and_remove-IsDormant :
      (now : ℕ) (handle : lt.Handle) (h : Bytes) (ti : TorrentInfo) (o : Option DiscoveredTorrent)
      (c : Crawler lt db)
      → IsDormant c
      → IsDormant (save_and_remove now handle h ti o c)
  unfolding save_and_remove
  save_and_remove-IsDormant now handle h ti none c v = v
  save_and_remove-IsDormant now handle h ti (some t) c v =
      let w = save_metadata-IsDormant h _ c v in
      record {
        requested = w.requested;
        pool = w.pool;
        collected = w.collected;
        observed = w.observed;
        running = w.running;
      }

  handle_metadata_received-IsDormant :
      (now : ℕ) (blank : DiscoveredTorrent) (handle : lt.Handle) (info_hash : Bytes)
      (file : Option TorrentInfo) (c : Crawler lt db)
      → IsDormant c
      → IsDormant (handle_metadata_received now blank handle info_hash file c)
  unfolding handle_metadata_received
  handle_metadata_received-IsDormant now blank handle info_hash none c v = v
  handle_metadata_received-IsDormant now blank handle info_hash (some ti) c v =
      save_and_remove-IsDormant now handle (bytes_to_hex info_hash) ti _ _
        (notify-IsDormant now (bytes_to_hex info_hash) c v)

  handle_alert-IsDormant :
      (now : ℕ) (a : Alert lt) (c : Crawler lt db) → IsDormant c → IsDormant (handle_alert now a c)
  unfolding handle_alert
  handle_alert-IsDormant now (dht_get_peers_reply info_hash []) c v = v
  handle_alert-IsDormant now (dht_get_peers_reply info_hash (p ∷ ps)) c v =
      handle_peer_reply-IsDormant now info_hash (p ∷ ps) c v
  handle_alert-IsDormant now (dht_announce info_hash) c v =
      handle_announce-IsDormant now info_hash c v
  handle_alert-IsDormant now (dht_immutable_item target) c v =
      handle_immutable_item-IsDormant now target c v
  handle_alert-IsDormant now (metadata_received blank handle info_hash file) c v =
      handle_metadata_received-IsDormant now blank handle info_hash file c v
  handle_alert-IsDormant now other_alert c v = v

  pub process_alerts-IsDormant :
      (now : ℕ) (alerts : List (Alert lt)) (c : Crawler lt db)
      → IsDormant c
      → IsDormant (process_alerts now alerts c)
  unfolding process_alerts
  process_alerts-IsDormant now [] c v = v
  process_alerts-IsDormant now (a ∷ alerts) c v =
      process_alerts-IsDormant now alerts _ (handle_alert-IsDormant now a c v)
