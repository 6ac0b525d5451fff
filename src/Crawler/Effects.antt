-- ===== src/Crawler/Effects.antt =====
-- What the handlers of alerts count and change.
use dht_crawler.Base.{
  ℕ, ◌+◌, ◌≡◌, refl, ap, ◌∙◌, List, [], ◌∷◌, Option, none, some, false, ℤ, Bytes, bytes_key,
  contains, lookup, length, if_both, arith,
}
use dht_crawler.Libtorrent.{Libtorrent}
use dht_crawler.HashFormat.{bytes_to_hex}
use dht_crawler.Downloader
use dht_crawler.Crawler.{
  DiscoveredTorrent, Database, Crawler, lend, give_back, store, queue_metadata, auto_queue,
}
use dht_crawler.Crawler.Handlers.{
  discover, observe, handle_peer_reply, handle_announce, handle_immutable_item, new_torrent,
}
use dht_crawler.Crawler.Metadata.{
  Alert, TorrentInfo, dht_get_peers_reply, dht_announce, dht_immutable_item, metadata_received,
  other_alert, notify, save_metadata, save_and_remove, torrent_for, handle_metadata_received,
  handle_alert, process_alerts,
}

-- The alert tells of a torrent: a reply with peers, an announce or an item.
unfoldable pub found_by : {lt : Libtorrent} → Alert lt → ℕ
found_by (dht_get_peers_reply info_hash []) = 0
found_by (dht_get_peers_reply info_hash (p ∷ ps)) = 1
found_by (dht_announce info_hash) = 1
found_by (dht_immutable_item target) = 1
found_by (metadata_received blank handle info_hash file) = 0
found_by other_alert = 0

unfoldable pub peers_in : {lt : Libtorrent} → Alert lt → ℕ
peers_in (dht_get_peers_reply info_hash peers) = length peers
peers_in _ = 0

-- Over the alerts of a call.
unfoldable pub total {ℓ} : {A : Type ℓ} → (A → ℕ) → List A → ℕ
total f [] = 0
total f (x ∷ xs) = f x + total f xs

module _ {lt : Libtorrent} {db : Database} where
  abbrev counts : Crawler lt db → ℕ × ℕ
  counts c = (c.torrents_found, c.peers_found)

  auto_queue-counts :
      (now : ℕ) (h : Bytes) (p : ℤ) (src : Bytes) (c : Crawler lt db)
      → counts (auto_queue now h p src c) ≡ counts c
  unfolding auto_queue queue_metadata give_back
  auto_queue-counts now h p src c =
      if_both (λ c'. counts c' ≡ counts c) (contains h c.metadata_requested) refl
        (if_both (λ (c' : Crawler lt db). counts c' ≡ counts c)
          (Downloader.request_metadata now h p src (lend c)).1 refl refl)

  discover-counts :
      (now : ℕ) (p : ℤ) (src : Bytes) (t : DiscoveredTorrent) (c : Crawler lt db)
      → counts (auto_queue now t.info_hash p src (discover t c))
        ≡ (c.torrents_found + 1, c.peers_found)
  unfolding discover store
  discover-counts now p src t c = auto_queue-counts now t.info_hash p src (discover t c)

  observe-counts :
      (now : ℕ) (h : Bytes) (ps : List Bytes) (c : Crawler lt db)
      → counts (observe now h ps c) ≡ counts c
  unfolding observe
  observe-counts now h ps c = if_both (λ c'. counts c' ≡ counts c) c.smart_mode refl refl

  save-counts :
      (now : ℕ) (handle : lt.Handle) (h : Bytes) (ti : TorrentInfo) (o : Option DiscoveredTorrent)
      (c : Crawler lt db)
      → counts (save_and_remove now handle h ti o c) ≡ counts c
  unfolding save_and_remove save_metadata
  save-counts now handle h ti none c = refl
  save-counts now handle h ti (some t) c = ground arith

  handle_alert-counts :
      (now : ℕ) (a : Alert lt) (c : Crawler lt db)
      → counts (handle_alert now a c) ≡ (c.torrents_found + found_by a, c.peers_found + peers_in a)
  unfolding handle_alert handle_peer_reply handle_announce handle_immutable_item new_torrent
      handle_metadata_received notify give_back found_by peers_in
  handle_alert-counts now (dht_get_peers_reply info_hash []) c = ground arith
  handle_alert-counts now (dht_get_peers_reply info_hash (p ∷ ps)) c =
      let seen = record c { peers_found = c.peers_found + length (p ∷ ps) } in
      discover-counts now _ _ _ _ ∙ ap (λ (n : ℕ × ℕ). (n.0 + 1, n.1)) (observe-counts now _ _ seen)
  handle_alert-counts now (dht_announce info_hash) c = discover-counts now _ _ _ c ∙ ground arith
  handle_alert-counts now (dht_immutable_item target) c = discover-counts now _ _ _ c ∙ ground arith
  handle_alert-counts now (metadata_received blank handle info_hash none) c = ground arith
  handle_alert-counts now (metadata_received blank handle info_hash (some ti)) c =
      save-counts now handle _ ti _ _ ∙ ground arith
  handle_alert-counts now other_alert c = ground arith

  -- processAlerts counts one torrent for each alert that tells of one, known or not and whatever the
  -- database answers, and every peer of the replies.
  pub process_alerts-counts :
      (now : ℕ) (alerts : List (Alert lt)) (c : Crawler lt db)
      → ((process_alerts now alerts c).torrents_found ≡ c.torrents_found + total found_by alerts)
        × ((process_alerts now alerts c).peers_found ≡ c.peers_found + total peers_in alerts)
  unfolding process_alerts total
  process_alerts-counts now [] c = (omega arith, omega arith)
  process_alerts-counts now (a ∷ alerts) c =
      let here = handle_alert-counts now a c in
      omega (
        arith,
        ap (λ (n : ℕ × ℕ). n.0) here,
        ap (λ (n : ℕ × ℕ). n.1) here,
        process_alerts-counts now alerts (handle_alert now a c),
      )

  -- In discovery, metadata of a torrent that is not known changes the downloader and the pool only:
  -- nothing is saved or counted, and the torrent stays in the session.
  pub received_unknown :
      (now : ℕ) (blank : DiscoveredTorrent) (handle : lt.Handle) (info_hash : Bytes)
      (ti : TorrentInfo) (c : Crawler lt db)
      → c.metadata_only_mode ≡ false
      → lookup (bytes_to_hex info_hash) c.discovered_torrents ≡ none
      → handle_metadata_received now blank handle info_hash (some ti) c
        ≡ notify now (bytes_to_hex info_hash) c
  unfolding handle_metadata_received save_and_remove torrent_for notify give_back
  received_unknown now blank handle info_hash ti c mode gone = ground (arith, mode, gone)
