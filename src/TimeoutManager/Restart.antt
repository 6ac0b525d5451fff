-- ===== src/TimeoutManager/Restart.antt =====
-- What a restart of the monitor does.
use dht_crawler.Base.{◌≡◌, refl, ℤ, ℕ, List, [], ◌∷◌, ◌++◌, Bytes, true, false, arith}
use dht_crawler.MonitorThread.{MonitorThread, wake, restart_lem, stop_thread}
use dht_crawler.TimeoutManager.{TimeoutManager, monitor_round, start, stop, is_running}

-- The rounds of the monitor with their readings of the clock, and the callbacks called.
unfoldable pub rounds : List (ℤ × ℤ) → TimeoutManager → TimeoutManager × List (Bytes × ℕ)
rounds [] m = (m, [])
rounds ((now, later) ∷ rs) m =
    let (m', called) = monitor_round now later m in
    let (m'', more) = rounds rs m' in (m'', called ++ more)

asleep :
    (now later : ℤ) (m : TimeoutManager)
    → wake m.monitor ≡ (m.monitor, false)
    → monitor_round now later m ≡ (m, [])
unfolding monitor_round
asleep now later m h = rw (h, monitor_round) refl

asleep_all :
    (rs : List (ℤ × ℤ)) (m : TimeoutManager)
    → wake m.monitor ≡ (m.monitor, false)
    → rounds rs m ≡ (m, [])
unfolding rounds
asleep_all [] m h = refl
asleep_all ((now, later) ∷ rs) m h = rw (rounds, asleep now later m h, asleep_all rs m h) refl

seen : (t : MonitorThread) → (wake (stop_thread t)).1 ≡ false
unfolding wake stop_thread
seen t = ground arith

-- When the monitor thread has seen a stop, a start makes isRunning answer true, but however many
-- rounds follow, no callback is called and nothing changes.
pub restart_stays_dead :
    (now later : ℤ) (rs : List (ℤ × ℤ)) (m : TimeoutManager)
    → m.monitor.joinable ≡ true
    → let restarted = start (monitor_round now later (stop m)).0 in
      (is_running restarted ≡ true) × (rounds rs restarted ≡ (restarted, []))
unfolding start stop is_running monitor_round
restart_stays_dead now later rs m h =
    rw (monitor_round, seen m.monitor)
      (let (says, sleeps) = restart_lem m.monitor h in
        (
          says,
          asleep_all rs (start (record m { monitor = (wake (stop_thread m.monitor)).0 })) sleeps,
        ))
