-- ===== src/Crawler/Timeouts.antt =====
-- What the crawler does with the requests that time out in the pool.
use dht_crawler.Base.{ℕ, List, [], ◌∷◌, Bytes}
use dht_crawler.Libtorrent.{Libtorrent}
use dht_crawler.WorkerPool.{WorkerPool, cleanup_timeouts, split_timed_out}
use dht_crawler.Crawler.{Database, Crawler}

module _ {lt : Libtorrent} where
  -- get_timed_out_requests of the pool.
  unfoldable pub get_timed_out_requests : ℕ → WorkerPool lt → WorkerPool lt × List Bytes
  get_timed_out_requests now p =
      let (late, kept) = split_timed_out now p.request_timeout_seconds p.pending_requests in
      (record p { pending_requests = kept }, late)

-- for (const auto& hash : timed_out_requests) m_mysql->markTorrentTimedOut(hash);
unfoldable pub mark_all : (db : Database) → List Bytes → db.Connection → db.Connection
mark_all db [] mysql = mysql
mark_all db (hash ∷ hashes) mysql = mark_all db hashes (db.mark_torrent_timed_out mysql hash).0

module _ {lt : Libtorrent} {db : Database} where
  -- The sweep of the pool and what is left for the database.
  unfoldable pub mark_timeouts : ℕ → Crawler lt db → Crawler lt db
  mark_timeouts now c =
      let (p, late) = get_timed_out_requests now (cleanup_timeouts now c.worker_pool) in
      record c { worker_pool = p; mysql = mark_all db late c.mysql }
