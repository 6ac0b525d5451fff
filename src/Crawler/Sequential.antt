-- ===== src/Crawler/Sequential.antt =====
-- The sequential loop of startCrawling in src/dht_crawler.cpp: a random hash in each round, queried
-- unless it was before; the try block of a round is that of the workers of the concurrent manager. A
-- run is a list of rounds, each with the hash that it draws.
use dht_crawler.Base.{
  ℕ, ◌+◌, ◌*◌, ◌≤◌, ◌≡◌, refl, ℤ, pos, ltb_ℤ, List, [], ◌∷◌, Bool, true, false, ◌&&◌, ◌||◌, not,
  Bytes, bytes_key, StdSet, contains, add, length, length-add_new, if◌then◌else◌, arith,
}
use dht_crawler.Libtorrent.{Libtorrent, dht_of}
use dht_crawler.ConcurrentDht.{query_hash}
use dht_crawler.Crawler.{Database, Crawler}
use dht_crawler.Crawler.Handlers.{request_metadata_for_discovered_torrents}
use dht_crawler.Crawler.Metadata.{Alert, process_alerts}
use dht_crawler.Crawler.Timeouts.{mark_timeouts}
use dht_crawler.Crawler.Discovery.{at_every, adjust_limit}

pub record Draw (lt : Libtorrent) : Type 0 where
  pub random_hash : Bytes
  pub now : ℕ
  pub alerts : List (Alert lt)

-- The crawler with the state of this loop.
pub record Sequential (lt : Libtorrent) (db : Database) : Type 0 where
  pub crawler : Crawler lt db
  pub queried_hashes : StdSet Bytes
  pub total_queries : ℕ
  pub query_count : ℕ

module _ {lt : Libtorrent} {db : Database} where
  unfoldable pub begin : Crawler lt db → Sequential lt db
  begin c = record { crawler = c; queried_hashes = []; total_queries = 0; query_count = 0 }

  -- Each hash of the set is counted once, and two queries are sent for it at most.
  pub record IsCounted (s : Sequential lt db) : Type 0 where
    pub distinct : s.query_count ≡ length s.queried_hashes
    pub sent : s.total_queries ≤ 2 * s.query_count

  -- The handling behind the query, in the round that query_count gives.
  unfoldable pub handle_round : ℕ → Draw lt → Crawler lt db → Crawler lt db
  handle_round count d c = at_every 25 count adjust_limit (
      at_every 5 count (mark_timeouts d.now) (
        at_every 10 count (request_metadata_for_discovered_torrents d.now)
          (process_alerts d.now d.alerts c)))

  -- The body of the loop; a hash that was queried before is skipped by `continue`.
  unfoldable pub sequential_round : Draw lt → Sequential lt db → Sequential lt db
  unfolding handle_round
  sequential_round d s =
      if contains d.random_hash s.queried_hashes
      then s
      else (let (session, sent) = query_hash (dht_of lt) s.crawler.session d.random_hash in
          record {
            crawler = handle_round s.query_count d (record (s.crawler) { session = session });
            queried_hashes = add d.random_hash s.queried_hashes;
            total_queries = s.total_queries + (if sent then 2 else 0);
            query_count = s.query_count + 1;
          })

  -- m_running && !m_shutdown_requested && (max_queries < 0 || query_count < max_queries).
  unfoldable pub loop_test : ℤ → Sequential lt db → Bool
  loop_test max_queries s =
      s.crawler.running
      && not s.crawler.shutdown_requested
      && (ltb_ℤ max_queries (pos 0) || ltb_ℤ (pos s.query_count) max_queries)

  unfoldable pub sequential_loop : ℤ → List (Draw lt) → Sequential lt db → Sequential lt db
  sequential_loop max_queries [] s = s
  sequential_loop max_queries (d ∷ ds) s =
      sequential_loop max_queries ds (if loop_test max_queries s then sequential_round d s else s)

  round-IsCounted :
      (d : Draw lt) (s : Sequential lt db) → IsCounted s → IsCounted (sequential_round d s)
  unfolding sequential_round
  round-IsCounted d s v = record {
    distinct = ground (arith, length-add_new d.random_hash s.queried_hashes, v.distinct);
    sent = ground (arith, v.sent);
  }

  round_if-IsCounted :
      (b : Bool) (d : Draw lt) (s : Sequential lt db)
      → IsCounted s
      → IsCounted (if b then sequential_round d s else s)
  round_if-IsCounted true d s v = round-IsCounted d s v
  round_if-IsCounted false d s v = v

  loop-IsCounted :
      (m : ℤ) (ds : List (Draw lt)) (s : Sequential lt db)
      → IsCounted s
      → IsCounted (sequential_loop m ds s)
  unfolding sequential_loop
  loop-IsCounted m [] s v = v
  loop-IsCounted m (d ∷ ds) s v = loop-IsCounted m ds _ (round_if-IsCounted (loop_test m s) d s v)

  round-limit :
      (n : ℕ) (d : Draw lt) (s : Sequential lt db)
      → s.query_count ≤ n
      → (if loop_test (pos n) s then sequential_round d s else s).query_count ≤ n
  unfolding loop_test sequential_round
  round-limit n d s h = ground arith

  loop-limit :
      (n : ℕ) (ds : List (Draw lt)) (s : Sequential lt db)
      → s.query_count ≤ n
      → (sequential_loop (pos n) ds s).query_count ≤ n
  unfolding sequential_loop
  loop-limit n [] s h = h
  loop-limit n (d ∷ ds) s h = loop-limit n ds _ (round-limit n d s h)

  -- From its start, after any rounds, the sequential loop has counted each hash that it queried
  -- once, has sent two queries for each at most, and has queried at most n hashes where
  -- max_queries is n.
  pub sequential_loop-IsCounted :
      (n : ℕ) (ds : List (Draw lt)) (c : Crawler lt db)
      → IsCounted (sequential_loop (pos n) ds (begin c))
        × ((sequential_loop (pos n) ds (begin c)).query_count ≤ n)
  unfolding begin
  sequential_loop-IsCounted n ds c = (
    loop-IsCounted (pos n) ds (begin c) (record { distinct = refl; sent = omega arith }),
    loop-limit n ds (begin c) (omega arith),
  )
