-- ===== src/Crawler/MetadataOnly.antt =====
-- The modes of src/dht_crawler.cpp that fetch the metadata of given hashes: of an option, a file or
-- the database. The loop's rounds are a list, with the clock and the alerts of each; the loop ends
-- earlier where the code leaves it.
mod Steady
pub mod Batches
use dht_crawler.Base.{
  ℕ, ◌+◌, ◌-◌, ◌%◌, ◌^◌, ℤ, pos, leb_ℤ, List, [], ◌∷◌, ◌++◌, Option, Bool, true, false, ◌&&◌, ◌||◌,
  not, Bytes, length, drop, ltb, leb, ◌==◌, if◌then◌else◌,
}
use dht_crawler.Libtorrent.{Libtorrent}
use dht_crawler.HashList.{hashes_of}
use dht_crawler.Crawler.{Database, Crawler, start_crawling}
use dht_crawler.Crawler.Handlers.{request_metadata_for_hash}
use dht_crawler.Crawler.Metadata.{Alert, process_alerts}
use dht_crawler.Crawler.Timeouts.{get_timed_out_requests, mark_all}

-- A round of the loop: the instant, the seconds since the start, and the alerts.
pub record MetadataRound (lt : Libtorrent) : Type 0 where
  pub now : ℕ
  pub elapsed_seconds : ℕ
  pub alerts : List (Alert lt)

-- The index size() - 50 is a size_t, and the loop runs from there to the end.
unfoldable pub last_fifty : List Bytes → List Bytes
last_fifty hashes = drop ((length hashes + 2 ^ 64 - 50) % 2 ^ 64) hashes

module _ {lt : Libtorrent} {db : Database} where
  unfoldable pub setup_metadata_only_mode :
      (Bytes → Option Bytes) → Bytes → Crawler lt db → Crawler lt db
  setup_metadata_only_mode file hashes_str c = record c {
    metadata_only_mode = true;
    metadata_hash_list = c.metadata_hash_list ++ hashes_of file hashes_str;
  }

  -- What load_metadata_database_batch does with the batch that it got.
  unfoldable pub append_batch : List Bytes → Crawler lt db → Crawler lt db
  append_batch [] c = record c { shutdown_requested = true }
  append_batch (h ∷ hs) c = record c {
    metadata_hash_list = c.metadata_hash_list ++ h ∷ hs;
    metadata_db_offset = c.metadata_db_offset + length (h ∷ hs);
  }

  unfoldable pub load_metadata_database_batch : Crawler lt db → Crawler lt db
  load_metadata_database_batch c =
      let (mysql, batch) = db.get_torrents_with_missing_metadata c.mysql 100 c.metadata_db_offset in
      append_batch batch (record c { mysql = mysql })

  unfoldable pub setup_metadata_database_mode : Crawler lt db → Crawler lt db
  setup_metadata_database_mode c =
      let (mysql, total) = db.get_total_torrents_with_missing_metadata c.mysql in
      let counted = record c {
        mysql = mysql;
        metadata_only_mode = true;
        metadata_db_total_records = total;
      } in
      if leb_ℤ total (pos 0) && leb_ℤ (pos 0) total
      then record counted { shutdown_requested = true }
      else load_metadata_database_batch counted

  unfoldable pub request_all : ℕ → List Bytes → Crawler lt db → Crawler lt db
  request_all now [] c = c
  request_all now (h ∷ hs) c = request_all now hs (request_metadata_for_hash now h c)

  -- Timed-out requests are marked in database mode.
  unfoldable pub mark_late : ℕ → Crawler lt db → Crawler lt db
  mark_late now c =
      if c.metadata_database_mode
      then (let (p, late) = get_timed_out_requests now c.worker_pool in
          record c { worker_pool = p; mysql = mark_all db late c.mysql })
      else c

  -- Refill the queue in database mode when it runs low.
  unfoldable pub refill : ℕ → Crawler lt db → Crawler lt db
  refill now c =
      if c.metadata_database_mode && ltb (length c.metadata_hash_list) 50
      then (let loaded = load_metadata_database_batch c in
          request_all now (last_fifty loaded.metadata_hash_list) loaded)
      else c

  -- Whether the loop is left at the end of the round.
  unfoldable pub is_done : ℕ → Crawler lt db → Bool
  is_done elapsed_seconds c =
      leb 300 elapsed_seconds
      || (if c.metadata_database_mode
          then leb_ℤ c.metadata_db_total_records (pos c.metadata_db_processed)
            || length c.metadata_hash_list == 0
          else leb (length c.metadata_hash_list) c.metadata_fetched)

  unfoldable pub metadata_round : MetadataRound lt → Crawler lt db → Crawler lt db
  metadata_round r c = refill r.now (mark_late r.now (process_alerts r.now r.alerts c))

  -- while (m_running && !m_shutdown_requested)
  unfoldable pub metadata_loop : List (MetadataRound lt) → Crawler lt db → Crawler lt db
  metadata_loop [] c = c
  metadata_loop (r ∷ rs) c = elim (c.running && not c.shutdown_requested) [
    | false ↦ c
    | true ↦ elim (is_done r.elapsed_seconds (metadata_round r c)) [
      | true ↦ metadata_round r c
      | false ↦ metadata_loop rs (metadata_round r c)
    ]
  ]

  -- startCrawling in metadata-only mode, up to gracefulShutdown.
  unfoldable pub fetch_metadata : ℕ → List (MetadataRound lt) → Crawler lt db → Crawler lt db
  fetch_metadata now rs c =
      metadata_loop rs (request_all now c.metadata_hash_list (start_crawling c))
