-- ===== src/MonitorThread.antt =====
-- The background thread that TimeoutManager, RequestCacheManager and MetadataPieceManager keep, with
-- the same lines in each: src/timeout_manager.cpp, src/request_cache_manager.cpp and
-- src/metadata_piece_manager.cpp. `looping` says that the thread is still in its loop: a thread that
-- has left the loop is joinable until it is joined, which only the destructor does.
use dht_crawler.Base.{Bool, true, false, not, ◌&&◌, ◌≡◌, arith, if◌then◌else◌}

pub record MonitorThread : Type 0 where
  pub should_stop : Bool
  pub joinable : Bool
  pub looping : Bool

-- The constructor makes the thread.
abbrev pub started : MonitorThread
started = record { should_stop = false; joinable = true; looping = true }

-- should_stop_ = false; if (!thread.joinable()) thread = std::thread(loop).
unfoldable pub start_thread : MonitorThread → MonitorThread
start_thread t =
    if t.joinable
    then record t { should_stop = false }
    else record { should_stop = false; joinable = true; looping = true }

unfoldable pub stop_thread : MonitorThread → MonitorThread
stop_thread t = record t { should_stop = true }

-- !should_stop_ && thread.joinable().
unfoldable pub thread_is_running : MonitorThread → Bool
thread_is_running t = not t.should_stop && t.joinable

-- The end of a wait: the loop is left, or its body runs, which the Boolean says.
unfoldable pub wake : MonitorThread → MonitorThread × Bool
wake t =
    if t.looping
    then (if t.should_stop then (record t { looping = false }, false) else (t, true))
    else (t, false)

-- Once the thread has seen the stop, a restart says that it runs, and its body never runs again.
pub restart_lem :
    (t : MonitorThread)
    → t.joinable ≡ true
    → let restarted = start_thread (wake (stop_thread t)).0 in
      (thread_is_running restarted ≡ true) × (wake restarted ≡ (restarted, false))
unfolding start_thread stop_thread thread_is_running wake
restart_lem t h = ground arith
