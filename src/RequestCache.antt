-- ===== src/RequestCache.antt =====
-- RequestCacheManager of src/request_cache_manager.cpp: the requests by id, in four maps. The
-- request's id is an argument, and so is the clock, twice where the code reads it twice. An instant
-- is a number of nanoseconds, the configured intervals are milliseconds. The monitor thread calls
-- check_expired_requests and cleanup_expired_requests in turn (monitor_round).
pub mod Lifecycle
pub mod Expiry
use dht_crawler.Base.{
  ℕ, ◌+◌, ◌*◌, List, [], ◌∷◌, ◌++◌, Option, none, some, Bool, true, false, ◌&&◌, ◌||◌, Bytes, bytes,
  bytes_key, Bytes-discrete, StdMap, lookup, insert, erase, move, prune, keys, length, ltb, leb,
  if◌then◌else◌,
}
use dht_crawler.MonitorThread.{
  MonitorThread, started, start_thread, stop_thread, thread_is_running, wake,
}

-- NOT_FOUND is the answer for an id in none of the maps that are searched.
pub data RequestStatus : Type 0 where
  pending completed failed expired not_found : RequestStatus

pub record CacheConfig : Type 0 where
  pub request_timeout : ℕ
  pub cleanup_interval : ℕ
  pub max_retries : ℕ

-- The instants are 0 where the code leaves them unset.
pub record RequestInfo : Type 0 where
  pub id : Bytes
  pub type : Bytes
  pub target_id : Bytes
  pub parameters : StdMap Bytes Bytes
  pub status : RequestStatus
  pub result_data : Bytes
  pub error_message : Bytes
  pub created_at : ℕ
  pub expires_at : ℕ
  pub completed_at : ℕ
  pub failed_at : ℕ
  pub retry_count : ℕ
  pub max_retries : ℕ

pub record RequestCache : Type 0 where
  pub config : CacheConfig
  pub active_requests : StdMap Bytes RequestInfo
  pub completed_requests : StdMap Bytes RequestInfo
  pub failed_requests : StdMap Bytes RequestInfo
  pub expired_requests : StdMap Bytes RequestInfo
  pub monitor : MonitorThread

unfoldable pub init : CacheConfig → RequestCache
init config = record {
  config = config;
  active_requests = [];
  completed_requests = [];
  failed_requests = [];
  expired_requests = [];
  monitor = started;
}

abbrev pub milliseconds : ℕ → ℕ
milliseconds n = n * 1_000_000

-- generateRequestId, of the printed timestamp and counter.
unfoldable pub generate_request_id : Bytes → Bytes → Bytes
generate_request_id timestamp counter = bytes "REQ_" ++ (timestamp ++ (bytes "_" ++ counter))

unfoldable pub add_request :
    ℕ → Bytes → Bytes → Bytes → StdMap Bytes Bytes → RequestCache → RequestCache × Bytes
add_request now request_id request_type target_id parameters c = (
  record c {
    active_requests =
        insert request_id
          (record {
            id = request_id;
            type = request_type;
            target_id = target_id;
            parameters = parameters;
            status = pending;
            result_data = [];
            error_message = [];
            created_at = now;
            expires_at = now + milliseconds c.config.request_timeout;
            completed_at = 0;
            failed_at = 0;
            retry_count = 0;
            max_retries = c.config.max_retries;
          })
          c.active_requests;
  },
  request_id,
)

unfoldable pub get_request_status : Bytes → RequestCache → RequestStatus
get_request_status request_id c = elim (lookup request_id c.active_requests) [
  | some r ↦ r.status
  | none ↦ elim (lookup request_id c.expired_requests) [ some r ↦ r.status | none ↦ not_found ]
]

unfoldable pub mark_request_complete : ℕ → Bytes → Bytes → RequestCache → RequestCache × Bool
mark_request_complete now request_id result_data c = elim (lookup request_id c.active_requests) [
  | none ↦ (c, false)
  | some r ↦ (
    record c {
      completed_requests =
          insert request_id
            (record r { status = completed; result_data = result_data; completed_at = now })
            c.completed_requests;
      active_requests = erase request_id c.active_requests;
    },
    true,
  )
]

-- The request after a failure, before the decision to retry.
abbrev pub note_failure : ℕ → Bytes → RequestInfo → RequestInfo
note_failure now error_message r = record r {
  status = failed;
  error_message = error_message;
  failed_at = now;
  retry_count = r.retry_count + 1;
}

-- `later` is the second reading of the clock, for the retry's expiry.
unfoldable pub mark_request_failed : ℕ → ℕ → Bytes → Bytes → RequestCache → RequestCache × Bool
mark_request_failed now later request_id error_message c =
    elim (lookup request_id c.active_requests) [
      | none ↦ (c, false)
      | some r ↦
          let r' = note_failure now error_message r in
          (
            elim (ltb r'.retry_count r'.max_retries) [
              | true ↦ record c {
                active_requests =
                    insert request_id
                      (record r' {
                        status = pending;
                        expires_at = later + milliseconds c.config.request_timeout;
                      })
                      c.active_requests;
              }
              | false ↦ record c {
                failed_requests = insert request_id r' c.failed_requests;
                active_requests = erase request_id c.active_requests;
              }
            ],
            true,
          )
    ]

-- Whether a map has a request of a type for a target.
unfoldable pub has_target : Bytes → Bytes → StdMap Bytes RequestInfo → Bool
has_target request_type target_id [] = false
has_target request_type target_id ((id, r) ∷ m) = elim (Bytes-discrete r.type request_type) [
  | yes _ ↦ elim (Bytes-discrete r.target_id target_id) [
    | yes _ ↦ true
    | no _ ↦ has_target request_type target_id m
  ]
  | no _ ↦ has_target request_type target_id m
]

unfoldable pub is_request_cached : Bytes → Bytes → RequestCache → Bool
is_request_cached request_type target_id c =
    has_target request_type target_id c.active_requests
    || has_target request_type target_id c.completed_requests

-- none: the empty info.
unfoldable pub get_request_info : Bytes → RequestCache → Option RequestInfo
get_request_info request_id c = elim (lookup request_id c.active_requests) [
  | some r ↦ some r
  | none ↦ elim (lookup request_id c.completed_requests) [
    | some r ↦ some r
    | none ↦ elim (lookup request_id c.failed_requests) [
      | some r ↦ some r
      | none ↦ lookup request_id c.expired_requests
    ]
  ]
]

-- now >= expires_at.
unfoldable pub is_due : ℕ → RequestInfo → Bool
is_due now r = leb r.expires_at now

unfoldable pub check_expired_requests : ℕ → RequestCache → RequestCache
check_expired_requests now c =
    let (active, expired_ones) =
      move (is_due now) (λ r. record r { status = expired }) c.active_requests c.expired_requests in
    record c { active_requests = active; expired_requests = expired_ones }

-- now - expires_at > milliseconds(cleanup_interval).
unfoldable pub is_old : ℕ → ℕ → RequestInfo → Bool
is_old now interval r = ltb (r.expires_at + milliseconds interval) now

unfoldable pub cleanup_expired_requests : ℕ → RequestCache → RequestCache
cleanup_expired_requests now c = record c {
  expired_requests = prune (is_old now c.config.cleanup_interval) c.expired_requests;
}

-- The body of the monitor's loop.
unfoldable pub sweep : ℕ → ℕ → RequestCache → RequestCache
sweep now later c = cleanup_expired_requests later (check_expired_requests now c)

-- A round of the monitor thread, from the end of its wait.
unfoldable pub monitor_round : ℕ → ℕ → RequestCache → RequestCache
monitor_round now later c =
    let (thread, runs) = wake c.monitor in
    if runs then sweep now later (record c { monitor = thread }) else record c { monitor = thread }

unfoldable pub get_active_request_ids : RequestCache → List Bytes
get_active_request_ids c = keys c.active_requests

unfoldable pub get_completed_request_ids : RequestCache → List Bytes
get_completed_request_ids c = keys c.completed_requests

unfoldable pub get_failed_request_ids : RequestCache → List Bytes
get_failed_request_ids c = keys c.failed_requests

unfoldable pub get_expired_request_ids : RequestCache → List Bytes
get_expired_request_ids c = keys c.expired_requests

unfoldable pub get_total_request_count : RequestCache → ℕ
get_total_request_count c =
    length c.active_requests
    + length c.completed_requests
    + length c.failed_requests
    + length c.expired_requests

unfoldable pub clear_expired_requests : RequestCache → RequestCache
clear_expired_requests c = record c { expired_requests = [] }

unfoldable pub clear_all_requests : RequestCache → RequestCache
clear_all_requests c = record c {
  active_requests = [];
  completed_requests = [];
  failed_requests = [];
  expired_requests = [];
}

unfoldable pub update_config : CacheConfig → RequestCache → RequestCache
update_config config c = record c { config = config }

unfoldable pub start : RequestCache → RequestCache
start c = record c { monitor = start_thread c.monitor }

unfoldable pub stop : RequestCache → RequestCache
stop c = record c { monitor = stop_thread c.monitor }

unfoldable pub is_running : RequestCache → Bool
is_running c = thread_is_running c.monitor
