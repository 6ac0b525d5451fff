-- ===== src/Crawler/Discovery/Idle.antt =====
-- Who asks for metadata: every torrent is requested when it is found, so the pool has nothing to do.
use dht_crawler.Base.{
  ℕ, ℤ, pos, ◌≡◌, refl, ◌&&◌, not, inl, inr, List, [], ◌∷◌, true, Bytes, bytes, bytes_key, if_both,
  StdSet, StdMap, Values, Values-insert, Values-impl, contains, contains-add, add, Bool-cases,
  arith,
}
use dht_crawler.Libtorrent.{Libtorrent}
use dht_crawler.HashFormat.{bytes_to_hex}
use dht_crawler.Downloader
use dht_crawler.WorkerPool
use dht_crawler.WorkerPool.{
  WorkerPool, Worker, held_by, idle_workers, take_request, process_metadata_request,
}
use dht_crawler.SmartCrawler.{record_incoming_observation}
use dht_crawler.SmartCrawler.Queries.Readable.{
  IsObserved, bytes_to_hex-IsReadable, record_observation-IsObserved,
}
use dht_crawler.Crawler.{
  DiscoveredTorrent, Database, Crawler, lend, store, queue_metadata, auto_queue,
}
use dht_crawler.Crawler.Handlers.{
  discover, observe, handle_peer_reply, handle_announce, handle_immutable_item, new_torrent,
  request_for_torrents, peer_strings,
}

abbrev pub AllRequested : StdSet Bytes → StdMap Bytes DiscoveredTorrent → Type 0
AllRequested requested = Values (λ t. contains t.info_hash requested ≡ true)

AllRequested-add :
    (h : Bytes) (s : StdSet Bytes) (m : StdMap Bytes DiscoveredTorrent)
    → AllRequested s m
    → AllRequested (add h s) m
AllRequested-add h s =
    Values-impl (λ t. contains t.info_hash s ≡ true) (λ t. contains t.info_hash (add h s) ≡ true)
      (λ t e. ground (arith, contains-add h t.info_hash s))

module _ {lt : Libtorrent} {db : Database} where
  -- Every torrent found was requested, the pool and the indexer are as they were made, std::stoi can
  -- read every hash that was observed, and the loop goes on.
  pub record IsDormant (c : Crawler lt db) : Type 0 where
    pub requested : AllRequested c.metadata_requested c.discovered_torrents
    pub pool : c.worker_pool ≡ WorkerPool.init c.worker_pool.session 10 (pos 20)
    pub collected : c.bep51_indexer.collected_infohashes ≡ []
    pub observed : IsObserved c.smart_crawler.passive_observer
    pub running : (c.running && not c.shutdown_requested) ≡ true

  -- A session is at hand, so the downloader takes every request.
  request_metadata_lem :
      (now : ℕ) (h : Bytes) (p : ℤ) (src : Bytes) (c : Crawler lt db)
      → (Downloader.request_metadata now h p src (lend c)).1 ≡ true
  unfolding Downloader.request_metadata lend
  request_metadata_lem now h p src c = ground arith

  -- What the calls leave.
  pub record Kept (c c' : Crawler lt db) : Type 0 where
    pub torrents : c'.discovered_torrents ≡ c.discovered_torrents
    pub pool : c'.worker_pool ≡ c.worker_pool
    pub indexer : c'.bep51_indexer ≡ c.bep51_indexer
    pub smart : c'.smart_crawler ≡ c.smart_crawler
    pub running :
        (c'.running && not c'.shutdown_requested) ≡ (c.running && not c.shutdown_requested)

  queue_metadata_lem :
      (now : ℕ) (h : Bytes) (p : ℤ) (src : Bytes) (c : Crawler lt db)
      → Kept c (queue_metadata now h p src c)
        × ((queue_metadata now h p src c).metadata_requested ≡ add h c.metadata_requested)
  unfolding queue_metadata
  queue_metadata_lem now h p src c =
      rw (request_metadata_lem now h p src c) (
        record { torrents = refl; pool = refl; indexer = refl; smart = refl; running = refl },
        refl,
      )

  -- What auto_queue does: the hash is requested, and no request is forgotten.
  pub record Queued (h : Bytes) (c c' : Crawler lt db) : Type 0 where
    pub kept : Kept c c'
    pub done : contains h c'.metadata_requested ≡ true
    pub monotone :
        (m : StdMap Bytes DiscoveredTorrent)
        → AllRequested c.metadata_requested m
        → AllRequested c'.metadata_requested m

  pub auto_queue_lem :
      (now : ℕ) (h : Bytes) (p : ℤ) (src : Bytes) (c : Crawler lt db)
      → Queued h c (auto_queue now h p src c)
  unfolding auto_queue
  auto_queue_lem now h p src c = elim (Bool-cases (contains h c.metadata_requested)) [
    | inl old ↦ rw old (record {
      kept = record { torrents = refl; pool = refl; indexer = refl; smart = refl; running = refl };
      done = old;
      monotone = λ m a. a;
    })
    | inr new ↦
        let (kept, added) = queue_metadata_lem now h p src c in
        rw new (record {
          kept = kept;
          done = rw added (ground (arith, contains-add h h c.metadata_requested));
          monotone = λ m a. rw added (AllRequested-add h c.metadata_requested m a);
        })
  ]

  -- A torrent found and requested at once.
  discover-auto_queue :
      (now : ℕ) (p : ℤ) (src : Bytes) (t : DiscoveredTorrent) (c : Crawler lt db)
      → IsDormant c
      → IsDormant (auto_queue now t.info_hash p src (discover t c))
  unfolding discover store
  discover-auto_queue now p src t c v =
      let q = auto_queue_lem now t.info_hash p src (discover t c) in
      record {
        requested = rw q.kept.torrents (
            Values-insert _ t.info_hash t c.discovered_torrents q.done
              (q.monotone c.discovered_torrents v.requested));
        pool = rw q.kept.pool v.pool;
        collected = rw q.kept.indexer v.collected;
        observed = rw q.kept.smart v.observed;
        running = rw q.kept.running v.running;
      }

  observe-IsDormant :
      (now : ℕ) (b : Bytes) (ps : List Bytes) (c : Crawler lt db)
      → IsDormant c
      → IsDormant (observe now (bytes_to_hex b) ps c)
  unfolding observe record_incoming_observation
  observe-IsDormant now b ps c v =
      if_both IsDormant c.smart_mode
        (record {
          requested = v.requested;
          pool = v.pool;
          collected = v.collected;
          observed =
              record_observation-IsObserved _ c.smart_crawler.passive_observer
                (bytes_to_hex-IsReadable b) v.observed;
          running = v.running;
        })
        v

  pub handle_peer_reply-IsDormant :
      (now : ℕ) (info_hash : Bytes) (peers : List (Bytes × ℕ)) (c : Crawler lt db)
      → IsDormant c
      → IsDormant (handle_peer_reply now info_hash peers c)
  unfolding handle_peer_reply new_torrent
  handle_peer_reply-IsDormant now info_hash peers c v =
      discover-auto_queue now (pos 3) (bytes "DHT_PEERS") _ _ (
        observe-IsDormant now info_hash (peer_strings peers) _ (record {
          requested = v.requested;
          pool = v.pool;
          collected = v.collected;
          observed = v.observed;
          running = v.running;
        }))

  pub handle_announce-IsDormant :
      (now : ℕ) (info_hash : Bytes) (c : Crawler lt db)
      → IsDormant c
      → IsDormant (handle_announce now info_hash c)
  unfolding handle_announce new_torrent
  handle_announce-IsDormant now info_hash c =
      discover-auto_queue now (pos 2) (bytes "DHT_ANNOUNCE") _ c

  pub handle_immutable_item-IsDormant :
      (now : ℕ) (target : Bytes) (c : Crawler lt db)
      → IsDormant c
      → IsDormant (handle_immutable_item now target c)
  unfolding handle_immutable_item new_torrent
  handle_immutable_item-IsDormant now target c =
      discover-auto_queue now (pos 1) (bytes "DHT_ITEM") _ c

  -- No torrent is left to request.
  pub request_for_torrents_none :
      (now n : ℕ) (m : StdMap Bytes DiscoveredTorrent) (c : Crawler lt db)
      → AllRequested c.metadata_requested m
      → request_for_torrents now n m c ≡ c
  unfolding request_for_torrents
  request_for_torrents_none now n [] c a = refl
  request_for_torrents_none now n ((k, t) ∷ m) c a =
      ground (arith, a.0, request_for_torrents_none now n m c a.1)
