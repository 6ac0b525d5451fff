-- ===== src/ConcurrentDht.antt =====
-- ConcurrentDHTManager of src/concurrent_dht_manager.hpp: worker threads that draw random hashes and
-- query each at the DHT. A run is any interleaving of the main thread's calls with the steps of the
-- workers, a step being what the code does under the mutex, or between two accesses to what the
-- threads share. The hash that a worker draws is an argument of its step. A worker that has passed
-- the test of its loop may take the next step after a stop was requested. The callbacks, the delays
-- and the log are left out, and so is the queue of queries, which nothing uses.

pub mod Weights
pub mod Interleaving
pub mod Queries
use dht_crawler.Base.{
  ℕ, zero, suc, ◌+◌, ◌-◌, List, [], ◌∷◌, ◌++◌, Option, none, some, Bool, true, false, not, ◌&&◌,
  ◌||◌, Bytes, bytes_key, StdSet, contains, add, get_elem?, modify, if◌then◌else◌,
}
use dht_crawler.Libtorrent.{DhtSession}

-- Where a worker stands: before its first line, at the test of its loop, before the draw of a hash,
-- with a hash that it has put into the set, with that hash counted, and behind its last line.
pub data Stage : Type 0 where
  created looping drawing ended : Stage
  claimed counted : Bytes → Stage

pub record ConcurrentDht (dht : DhtSession) : Type 0 where
  pub session : dht.Session
  pub num_workers : ℕ
  pub running : Bool
  pub shutdown_requested : Bool
  pub workers : List Stage
  pub worker_count : ℕ
  pub queries_generated : ℕ
  pub total_queries_sent : ℕ
  pub queried_hashes : StdSet Bytes

-- The threads that start makes.
unfoldable pub new_workers : ℕ → List Stage
new_workers zero = []
new_workers (suc n) = created ∷ new_workers n

abbrev pub has_ended : Stage → Bool
has_ended ended = true
has_ended _ = false

-- Every worker can be joined.
unfoldable pub all_ended : List Stage → Bool
all_ended [] = true
all_ended (w ∷ ws) = has_ended w && all_ended ws

-- The try block: an exception of either call leaves the count.
unfoldable pub query_hash : (dht : DhtSession) → dht.Session → Bytes → dht.Session × Bool
query_hash dht s hash =
    let (s', asked) = dht.dht_get_peers s hash in
    if asked then dht.dht_get_item s' hash else (s', false)

module _ {dht : DhtSession} where
  unfoldable pub init : dht.Session → ℕ → ConcurrentDht dht
  init session num_workers = record {
    session = session;
    num_workers = num_workers;
    running = false;
    shutdown_requested = false;
    workers = [];
    worker_count = 0;
    queries_generated = 0;
    total_queries_sent = 0;
    queried_hashes = [];
  }

  unfoldable pub start : ConcurrentDht dht → ConcurrentDht dht
  start m = if m.running then m else record m {
    running = true;
    shutdown_requested = false;
    workers = m.workers ++ new_workers m.num_workers;
  }

  -- stop up to the joins.
  unfoldable pub request_stop : ConcurrentDht dht → ConcurrentDht dht
  request_stop m = if m.running then record m { shutdown_requested = true } else m

  -- stop from the joins on: it waits until the workers have ended.
  unfoldable pub join_workers : ConcurrentDht dht → ConcurrentDht dht
  join_workers m =
      if m.running && m.shutdown_requested && all_ended m.workers
      then record m { workers = []; running = false }
      else m

  abbrev pub move_worker : ℕ → Stage → ConcurrentDht dht → ConcurrentDht dht
  move_worker i stage m = record m { workers = modify i (λ _. stage) m.workers }

  -- m_worker_count++.
  unfoldable pub enter_worker : ℕ → ConcurrentDht dht → ConcurrentDht dht
  enter_worker i m = elim (get_elem? m.workers i) [
    | some created ↦ record m {
      worker_count = m.worker_count + 1;
      workers = modify i (λ _. looping) m.workers;
    }
    | _ ↦ m
  ]

  -- m_running && !m_shutdown_requested, and m_worker_count-- behind the loop.
  unfoldable pub test_loop : ℕ → ConcurrentDht dht → ConcurrentDht dht
  test_loop i m = elim (get_elem? m.workers i) [
    | some looping ↦
        if m.running && not m.shutdown_requested then move_worker i drawing m else record m {
          worker_count = m.worker_count - 1;
          workers = modify i (λ _. ended) m.workers;
        }
    | _ ↦ m
  ]

  -- The draw, and the block under the mutex of the set.
  unfoldable pub draw_hash : ℕ → Bytes → ConcurrentDht dht → ConcurrentDht dht
  draw_hash i hash m = elim (get_elem? m.workers i) [
    | some drawing ↦ if contains hash m.queried_hashes then move_worker i looping m else record m {
      queried_hashes = add hash m.queried_hashes;
      workers = modify i (λ _. claimed hash) m.workers;
    }
    | _ ↦ m
  ]

  -- m_queries_generated++.
  unfoldable pub count_query : ℕ → ConcurrentDht dht → ConcurrentDht dht
  count_query i m = elim (get_elem? m.workers i) [
    | some (claimed hash) ↦ record m {
      queries_generated = m.queries_generated + 1;
      workers = modify i (λ _. counted hash) m.workers;
    }
    | _ ↦ m
  ]

  unfoldable pub send_query : ℕ → ConcurrentDht dht → ConcurrentDht dht
  send_query i m = elim (get_elem? m.workers i) [
    | some (counted hash) ↦
        let (s', sent) = query_hash dht m.session hash in
        record m {
          session = s';
          total_queries_sent = if sent then m.total_queries_sent + 2 else m.total_queries_sent;
          workers = modify i (λ _. looping) m.workers;
        }
    | _ ↦ m
  ]
