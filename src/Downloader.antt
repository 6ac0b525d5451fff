-- ===== src/Downloader.antt =====
-- PersistentMetadataDownloader of src/enhanced_metadata_manager.hpp: the queue of wanted hashes,
-- the requests in progress at libtorrent, and the loop that moves one to the other. A call that
-- reads the clock is given the instant; it is one for all the reads of a call. The log is left out.
-- Counters do not overflow.
pub mod Loop
pub mod Apart
pub mod Accounting
pub mod Limits
use dht_crawler.Base.{
  ℕ, zero, suc, ◌+◌, ◌-◌, ◌/◌, ℤ, pos, ◌+ℤ◌, ◌-ℤ◌, ltb_ℤ, List, [], ◌∷◌, ◌++◌, Option, none, some,
  Bool, true, false, not, ◌&&◌, ◌||◌, Bytes, bytes, lookup, length, ltb, if◌then◌else◌, bytes_key,
}
use dht_crawler.HashFormat.{convert_hash_to_hex}
use dht_crawler.Libtorrent.{Libtorrent, start_torrent}
use dht_crawler.RequestQueue.{RequestQueue, QueueEntry, enqueue, dequeue, is_queued, empty}
use dht_crawler.RequestTracker.{
  Tracker, RequestInfo, add_request, remove_request, has_request, get_timed_out_requests, to_size_t,
}

-- m_session is a pointer, none where it is null.
pub record Downloader (lt : Libtorrent) : Type 0 where
  pub session : Option lt.Session
  pub active_tracker : Tracker lt.Handle
  pub queue : RequestQueue
  pub max_concurrent_requests : ℤ
  pub request_timeout_seconds : ℤ
  pub success_count : ℕ
  pub failure_count : ℕ
  pub timeout_count : ℕ
  pub total_queued : ℕ
  pub total_processed : ℕ

-- std::min and std::max on int.
unfoldable pub min_ℤ : ℤ → ℤ → ℤ
min_ℤ a b = if ltb_ℤ b a then b else a

unfoldable pub max_ℤ : ℤ → ℤ → ℤ
max_ℤ a b = if ltb_ℤ a b then b else a

-- The rounds that an entry can take: one for each priority down to 1, and at least one.
abbrev pub rounds_left : ℤ → ℕ
rounds_left (pos (suc n)) = suc n
rounds_left _ = 1

unfoldable pub queue_rounds : List QueueEntry → ℕ
queue_rounds [] = 0
queue_rounds (x ∷ xs) = rounds_left x.priority + queue_rounds xs

module _ {lt : Libtorrent} where
  -- The constructor.
  unfoldable pub init : Option lt.Session → Downloader lt
  init session = record {
    session = session;
    active_tracker = [];
    queue = empty;
    max_concurrent_requests = pos 1000;
    request_timeout_seconds = pos 20;
    success_count = 0;
    failure_count = 0;
    timeout_count = 0;
    total_queued = 0;
    total_processed = 0;
  }

  -- The request with a session and a hash in hex.
  unfoldable pub start_request :
      ℕ → QueueEntry → lt.Session → Bytes → Downloader lt → Downloader lt × Bool
  start_request now x s hex_hash d =
      let (s', result) = start_torrent lt s hex_hash in
      elim result [
        | none ↦ (record d { session = some s' }, false)
        | some handle ↦ (
          record d {
            session = some s';
            active_tracker = add_request x.hash now x.priority x.source handle d.active_tracker;
          },
          true,
        )
      ]

  -- With no session the code dereferences a null pointer; the queue is empty then, so that does
  -- not happen, and the model answers false.
  unfoldable pub process_single_request : ℕ → QueueEntry → Downloader lt → Downloader lt × Bool
  process_single_request now x d = elim (convert_hash_to_hex x.hash) [
    | [] ↦ (d, false)
    | c ∷ cs ↦ elim d.session [ none ↦ (d, false) | some s ↦ start_request now x s (c ∷ cs) d ]
  ]

  -- The body of the loop behind dequeue, with processed_this_round.
  unfoldable pub account : ℕ → QueueEntry → ℕ → Downloader lt × Bool → Downloader lt × ℕ
  account now x processed (d, true) =
      (record d { total_processed = d.total_processed + 1 }, processed + 1)
  account now x processed (d, false) =
      if ltb_ℤ (pos 1) x.priority
      then (
        record d {
          queue = enqueue now x.hash (x.priority -ℤ pos 1) (x.source ++ bytes "_RETRY") d.queue;
        },
        processed,
      )
      else (record d { failure_count = d.failure_count + 1 }, processed)

  unfoldable pub process_round : ℕ → Downloader lt × ℕ → Downloader lt × ℕ
  process_round now (d, processed) = elim (dequeue d.queue) [
    | none ↦ (d, processed)
    | some (x, q) ↦ account now x processed (process_single_request now x (record d { queue = q }))
  ]

  -- The condition of the loop.
  unfoldable pub goes_on : Downloader lt × ℕ → Bool
  goes_on (d, processed) =
      not (ltb (length d.queue.queue) 1)
      && ltb (length d.active_tracker) (to_size_t d.max_concurrent_requests)
      && ltb processed 50

  unfoldable pub process_loop : ℕ → ℕ → Downloader lt × ℕ → Downloader lt × ℕ
  process_loop zero now s = s
  process_loop (suc fuel) now s = elim (goes_on s) [
    | true ↦ process_loop fuel now (process_round now s)
    | false ↦ s
  ]

  unfoldable pub process_queue : ℕ → Downloader lt → Downloader lt
  process_queue now d = (process_loop (suc (queue_rounds d.queue.queue)) now (d, 0)).0

  unfoldable pub request_metadata : ℕ → Bytes → ℤ → Bytes → Downloader lt → Downloader lt × Bool
  request_metadata now info_hash priority source d = elim d.session [
    | none ↦ (d, false)
    | some _ ↦
        if has_request info_hash d.active_tracker || is_queued info_hash d.queue
        then (d, true)
        else (
          process_queue now (record d {
            queue = enqueue now info_hash priority source d.queue;
            total_queued = d.total_queued + 1;
          }),
          true,
        )
  ]

  unfoldable pub handle_metadata_received : ℕ → Bytes → Downloader lt → Downloader lt
  handle_metadata_received now info_hash d = process_queue now (record d {
    active_tracker = remove_request info_hash d.active_tracker;
    success_count = d.success_count + 1;
  })

  -- The removal at libtorrent, in the body of the loop of cleanup_timed_out_requests. An exception
  -- there is logged and swallowed.
  unfoldable pub drop_torrent : Bytes → Downloader lt → Option lt.Session
  drop_torrent hash d = elim d.session [
    | none ↦ none
    | some s ↦ elim (lookup hash d.active_tracker) [
      | none ↦ some s
      | some r ↦ if lt.is_valid r.handle then some (lt.remove_torrent s r.handle) else some s
    ]
  ]

  unfoldable pub drop_request : Bytes → Downloader lt → Downloader lt
  drop_request hash d = record d {
    session = drop_torrent hash d;
    active_tracker = remove_request hash d.active_tracker;
    timeout_count = d.timeout_count + 1;
  }

  unfoldable pub drop_requests : List Bytes → Downloader lt → Downloader lt
  drop_requests [] d = d
  drop_requests (hash ∷ hashes) d = drop_requests hashes (drop_request hash d)

  unfoldable pub cleanup_timed_out_requests : ℕ → Downloader lt → Downloader lt
  cleanup_timed_out_requests now d =
      let timed_out = get_timed_out_requests now d.request_timeout_seconds d.active_tracker in
      let dropped = drop_requests timed_out d in
      if ltb 0 (length timed_out) then process_queue now dropped else dropped

  unfoldable pub set_max_concurrent_requests : ℤ → Downloader lt → Downloader lt
  set_max_concurrent_requests max d = record d { max_concurrent_requests = max }

  unfoldable pub set_request_timeout : ℤ → Downloader lt → Downloader lt
  set_request_timeout timeout_seconds d = record d { request_timeout_seconds = timeout_seconds }

  unfoldable pub log_success : Downloader lt → Downloader lt
  log_success d = record d { success_count = d.success_count + 1 }

  unfoldable pub log_failure : Downloader lt → Downloader lt
  log_failure d = record d { failure_count = d.failure_count + 1 }

  unfoldable pub adjust_concurrent_limit : Downloader lt → Downloader lt
  unfolding min_ℤ max_ℤ
  adjust_concurrent_limit d =
      if ltb 2000 (length d.queue.queue) && ltb d.timeout_count (d.success_count / 10)
      then (if ltb_ℤ max (pos 1000)
          then record d { max_concurrent_requests = min_ℤ (pos 1000) (max +ℤ pos 100) }
          else d)
      else if ltb (d.success_count / 5) d.timeout_count && ltb_ℤ (pos 200) max
      then record d { max_concurrent_requests = max_ℤ (pos 200) (max -ℤ pos 50) }
      else d
    where
      max : ℤ
      max = d.max_concurrent_requests
