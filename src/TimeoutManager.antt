-- ===== src/TimeoutManager.antt =====
-- TimeoutManager of src/timeout_manager.cpp: named timeouts that run until they expire, are stopped
-- or are reset. The clock is an argument. An instant is a number of nanoseconds since the clock's
-- epoch and a duration a number of milliseconds, negative where the caller passes one. A callback is
-- a number, 0 where it is empty, and the calls made are the list of the callbacks with their ids. The
-- monitor thread calls check_expired_timeouts and cleanup_expired_timeouts in turn (monitor_round).
pub mod Monitor
pub mod Restart
use dht_crawler.Base.{
  ℕ, ◌+◌, ◌*◌, ◌/◌, List, [], ◌∷◌, ◌++◌, Option, none, some, Bool, true, false, Bytes, bytes_key,
  StdMap, lookup, insert, erase, move, prune, keys, length, ltb, if◌then◌else◌, ℤ, pos, negsuc,
  pos_part, neg_part, sub_ℕ, ◌+ℤ◌, ◌-ℤ◌, ltb_ℤ, leb_ℤ,
}
use dht_crawler.MonitorThread.{
  MonitorThread, started, start_thread, stop_thread, thread_is_running, wake,
}

pub data TimeoutStatus : Type 0 where
  active cancelled : TimeoutStatus

pub record TimeoutConfig : Type 0 where
  pub cleanup_interval : ℕ

pub record TimeoutInfo : Type 0 where
  pub id : Bytes
  pub duration : ℤ
  pub expires_at : ℤ
  pub callback : Option ℕ
  pub created_at : ℤ
  pub status : TimeoutStatus

-- TimeoutInfo{}.
abbrev pub empty_info : TimeoutInfo
empty_info = record {
  id = [];
  duration = pos 0;
  expires_at = pos 0;
  callback = none;
  created_at = pos 0;
  status = active;
}

pub record TimeoutManager : Type 0 where
  pub config : TimeoutConfig
  pub active_timeouts : StdMap Bytes TimeoutInfo
  pub expired_timeouts : StdMap Bytes TimeoutInfo
  pub monitor : MonitorThread

unfoldable pub init : TimeoutConfig → TimeoutManager
init config = record {
  config = config;
  active_timeouts = [];
  expired_timeouts = [];
  monitor = started;
}

-- A duration in milliseconds, in nanoseconds.
unfoldable pub milliseconds : ℤ → ℤ
milliseconds d = sub_ℕ (pos_part d * 1_000_000) (neg_part d * 1_000_000)

-- duration_cast to milliseconds, which rounds towards 0.
unfoldable pub to_milliseconds : ℤ → ℤ
to_milliseconds d = sub_ℕ (pos_part d / 1_000_000) (neg_part d / 1_000_000)

unfoldable pub start_timeout : ℤ → Bytes → ℤ → Option ℕ → TimeoutManager → TimeoutManager × Bytes
start_timeout now timeout_id duration callback m = (
  record m {
    active_timeouts =
        insert timeout_id
          (record {
            id = timeout_id;
            duration = duration;
            expires_at = now +ℤ milliseconds duration;
            callback = callback;
            created_at = now;
            status = active;
          })
          m.active_timeouts;
  },
  timeout_id,
)

unfoldable pub stop_timeout : Bytes → TimeoutManager → TimeoutManager × Bool
stop_timeout timeout_id m = elim (lookup timeout_id m.active_timeouts) [
  | none ↦ (m, false)
  | some _ ↦ (record m { active_timeouts = erase timeout_id m.active_timeouts }, true)
]

-- now >= expires_at.
unfoldable pub is_due : ℤ → TimeoutInfo → Bool
is_due now t = leb_ℤ t.expires_at now

unfoldable pub check_timeout : ℤ → Bytes → TimeoutManager → Bool
check_timeout now timeout_id m = elim (lookup timeout_id m.active_timeouts) [
  | none ↦ false
  | some t ↦ is_due now t
]

unfoldable pub is_timed_out : ℤ → Bytes → TimeoutManager → Bool
is_timed_out now timeout_id m = elim (lookup timeout_id m.active_timeouts) [
  | none ↦ false
  | some t ↦ is_due now t
]

unfoldable pub reset_timeout : ℤ → Bytes → ℤ → TimeoutManager → TimeoutManager × Bool
reset_timeout now timeout_id new_duration m = elim (lookup timeout_id m.active_timeouts) [
  | none ↦ (m, false)
  | some t ↦ (
    record m {
      active_timeouts =
          insert timeout_id
            (record t { duration = new_duration; expires_at = now +ℤ milliseconds new_duration })
            m.active_timeouts;
    },
    true,
  )
]

unfoldable pub get_remaining_time : ℤ → Bytes → TimeoutManager → ℤ
get_remaining_time now timeout_id m = elim (lookup timeout_id m.active_timeouts) [
  | none ↦ pos 0
  | some t ↦ to_milliseconds (t.expires_at -ℤ now)
]

unfoldable pub get_timeout_info : Bytes → TimeoutManager → TimeoutInfo
get_timeout_info timeout_id m = elim (lookup timeout_id m.active_timeouts) [
  | some t ↦ t
  | none ↦ elim (lookup timeout_id m.expired_timeouts) [ some t ↦ t | none ↦ empty_info ]
]

-- The callbacks that the sweep calls, in the order of the ids.
unfoldable pub callbacks_due : ℤ → StdMap Bytes TimeoutInfo → List (Bytes × ℕ)
callbacks_due now [] = []
callbacks_due now ((id, t) ∷ m) =
    let rest = callbacks_due now m in
    if is_due now t then elim t.callback [ none ↦ rest | some f ↦ (id, f) ∷ rest ] else rest

unfoldable pub check_expired_timeouts : ℤ → TimeoutManager → TimeoutManager × List (Bytes × ℕ)
check_expired_timeouts now m =
    let (kept, old) = move (is_due now) (λ t. t) m.active_timeouts m.expired_timeouts in
    (
      record m { active_timeouts = kept; expired_timeouts = old },
      callbacks_due now m.active_timeouts,
    )

-- now - expires_at > milliseconds(cleanup_interval).
unfoldable pub is_old : ℤ → ℕ → TimeoutInfo → Bool
is_old now interval t = ltb_ℤ (milliseconds (pos interval)) (now -ℤ t.expires_at)

unfoldable pub cleanup_expired_timeouts : ℤ → TimeoutManager → TimeoutManager
cleanup_expired_timeouts now m = record m {
  expired_timeouts = prune (is_old now m.config.cleanup_interval) m.expired_timeouts;
}

-- The body of the monitor's loop, which reads the clock twice.
unfoldable pub sweep : ℤ → ℤ → TimeoutManager → TimeoutManager × List (Bytes × ℕ)
sweep now later m =
    let (m', called) = check_expired_timeouts now m in (cleanup_expired_timeouts later m', called)

-- A round of the monitor thread, from the end of its wait.
unfoldable pub monitor_round : ℤ → ℤ → TimeoutManager → TimeoutManager × List (Bytes × ℕ)
monitor_round now later m =
    let (thread, runs) = wake m.monitor in
    if runs
    then sweep now later (record m { monitor = thread })
    else (record m { monitor = thread }, [])

unfoldable pub get_active_timeout_ids : TimeoutManager → List Bytes
get_active_timeout_ids m = keys m.active_timeouts

unfoldable pub get_expired_timeout_ids : TimeoutManager → List Bytes
get_expired_timeout_ids m = keys m.expired_timeouts

unfoldable pub get_total_timeout_count : TimeoutManager → ℕ
get_total_timeout_count m = length m.active_timeouts + length m.expired_timeouts

unfoldable pub clear_expired_timeouts : TimeoutManager → TimeoutManager
clear_expired_timeouts m = record m { expired_timeouts = [] }

unfoldable pub clear_all_timeouts : TimeoutManager → TimeoutManager
clear_all_timeouts m = record m { active_timeouts = []; expired_timeouts = [] }

unfoldable pub update_config : TimeoutConfig → TimeoutManager → TimeoutManager
update_config config m = record m { config = config }

unfoldable pub start : TimeoutManager → TimeoutManager
start m = record m { monitor = start_thread m.monitor }

unfoldable pub stop : TimeoutManager → TimeoutManager
stop m = record m { monitor = stop_thread m.monitor }

unfoldable pub is_running : TimeoutManager → Bool
is_running m = thread_is_running m.monitor
