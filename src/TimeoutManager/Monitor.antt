-- ===== src/TimeoutManager/Monitor.antt =====
-- What the monitor's sweep calls and moves, and how the calls of the other threads change that.
use mathlib.Core.Path.{subst}
use dht_crawler.Base.{
  ℕ, ◌+◌, ◌*◌, ◌≡◌, ◌∙◌, refl, List, [], ◌∷◌, Option, Option-cases, none, some, Bool-cases, true,
  false, inl, inr, Bytes, bytes_key, Bytes-discrete, StdMap, lookup, insert, lookup-insert,
  lookup-erase, Sorted, Sorted-erase, Sorted-move, Sorted-prune, lookup-Above, lookup-prune,
  lookup-move, move-prune, unless_passes, arith, ℤ, pos, ◌-ℤ◌, leb, ◌+ℤ◌, if◌then◌else◌,
}
use dht_crawler.TimeoutManager.{
  TimeoutInfo, TimeoutManager, milliseconds, to_milliseconds, start_timeout, stop_timeout, is_due,
  get_remaining_time, callbacks_due, check_expired_timeouts,
}

pub record IsOrdered (m : TimeoutManager) : Type 0 where
  pub active : Sorted m.active_timeouts
  pub expired : Sorted m.expired_timeouts

-- The callbacks that a list of calls makes for an id.
unfoldable pub fired : Bytes → List (Bytes × ℕ) → List ℕ
fired id [] = []
fired id ((i, f) ∷ calls) = elim (Bytes-discrete i id) [
  | yes _ ↦ f ∷ fired id calls
  | no _ ↦ fired id calls
]

-- The callbacks due for a timeout, if it runs.
abbrev pub due_callback : ℤ → Option TimeoutInfo → List ℕ
due_callback now none = []
due_callback now (some t) =
    if is_due now t then elim t.callback [ none ↦ [] | some f ↦ f ∷ [] ] else []

fired-callbacks_due :
    (now : ℤ) (id : Bytes) (m : StdMap Bytes TimeoutInfo)
    → Sorted m
    → fired id (callbacks_due now m) ≡ due_callback now (lookup id m)
unfolding fired callbacks_due lookup
fired-callbacks_due now id [] s = refl
fired-callbacks_due now id ((i, t) ∷ m) s = elim (Bytes-discrete i id) [
  | yes e ↦
      let gone : lookup id m ≡ none = subst (λ x. lookup x m ≡ none) e (lookup-Above i m s.0) in
      ground (arith, fired-callbacks_due now id m s.1, gone)
  | no n ↦ ground (arith, fired-callbacks_due now id m s.1)
]

active_after :
    (now : ℤ) (id : Bytes) (m : TimeoutManager)
    → IsOrdered m
    → lookup id (check_expired_timeouts now m).0.active_timeouts
      ≡ unless_passes (is_due now) (lookup id m.active_timeouts)
unfolding check_expired_timeouts
active_after now id m v =
    rw (move-prune (is_due now) (λ t. t) m.active_timeouts m.expired_timeouts)
      (lookup-prune (is_due now) id m.active_timeouts v.active)

check-IsOrdered :
    (now : ℤ) (m : TimeoutManager) → IsOrdered m → IsOrdered (check_expired_timeouts now m).0
unfolding check_expired_timeouts
check-IsOrdered now m v = record {
  active =
      rw (move-prune (is_due now) (λ t. t) m.active_timeouts m.expired_timeouts)
        (Sorted-prune (is_due now) m.active_timeouts v.active);
  expired = Sorted-move (is_due now) (λ t. t) m.active_timeouts m.expired_timeouts v.expired;
}

fired-check :
    (now : ℤ) (id : Bytes) (m : TimeoutManager)
    → IsOrdered m
    → fired id (check_expired_timeouts now m).1 ≡ due_callback now (lookup id m.active_timeouts)
unfolding check_expired_timeouts
fired-check now id m v = fired-callbacks_due now id m.active_timeouts v.active

-- The sweep calls the callback of a running timeout that is due, once: it moves the timeout to the
-- expired ones, so that a later sweep calls nothing for it.
pub check-fires_once :
    (now later : ℤ) (id : Bytes) (t : TimeoutInfo) (m : TimeoutManager)
    → IsOrdered m
    → lookup id m.active_timeouts ≡ some t
    → is_due now t ≡ true
    → (fired id (check_expired_timeouts now m).1 ≡ elim t.callback [ none ↦ [] | some f ↦ f ∷ [] ])
      × (lookup id (check_expired_timeouts now m).0.expired_timeouts ≡ some t)
      × (fired id (check_expired_timeouts later (check_expired_timeouts now m).0).1 ≡ [])
unfolding check_expired_timeouts
check-fires_once now later id t m v e due =
    let after = active_after now id m v in
    let first = fired-check now id m v in
    let second = fired-check later id (check_expired_timeouts now m).0 (check-IsOrdered now m v) in
    let old = lookup-move (is_due now) (λ x. x) id m.active_timeouts m.expired_timeouts v.active in
    (ground (arith, first), ground (arith, old), ground (arith, second, after))

-- Before its expiry the sweep calls nothing for a running timeout, which runs on.
pub check-early :
    (now : ℤ) (id : Bytes) (t : TimeoutInfo) (m : TimeoutManager)
    → IsOrdered m
    → lookup id m.active_timeouts ≡ some t
    → is_due now t ≡ false
    → (fired id (check_expired_timeouts now m).1 ≡ [])
      × (lookup id (check_expired_timeouts now m).0.active_timeouts ≡ some t)
check-early now id t m v e early =
    let after = active_after now id m v in
    let first = fired-check now id m v in (ground (arith, first), ground (arith, after))

stopped : (id : Bytes) (m : TimeoutManager) → lookup id (stop_timeout id m).0.active_timeouts ≡ none
unfolding stop_timeout
stopped id m = elim (Option-cases (lookup id m.active_timeouts)) [
  | inl e ↦ rw (stop_timeout, e) e
  | inr (t, e) ↦ rw (stop_timeout, e) (ground (arith, lookup-erase id id m.active_timeouts))
]

stop-IsOrdered : (id : Bytes) (m : TimeoutManager) → IsOrdered m → IsOrdered (stop_timeout id m).0
unfolding stop_timeout
stop-IsOrdered id m v = elim (Option-cases (lookup id m.active_timeouts)) [
  | inl e ↦ rw (stop_timeout, e) v
  | inr (t, e) ↦
      rw (stop_timeout, e)
        (record { active = Sorted-erase id m.active_timeouts v.active; expired = v.expired })
]

-- A timeout that was stopped is not running, and no sweep calls its callback.
pub stop-silences :
    (now : ℤ) (id : Bytes) (m : TimeoutManager)
    → IsOrdered m
    → (lookup id (stop_timeout id m).0.active_timeouts ≡ none)
      × (fired id (check_expired_timeouts now (stop_timeout id m).0).1 ≡ [])
stop-silences now id m v =
    let gone = stopped id m in
    let order = stop-IsOrdered id m v in
    (gone, fired-check now id (stop_timeout id m).0 order ∙ rw gone refl)

remaining_lem :
    (now wait duration : ℕ)
    → to_milliseconds ((pos now +ℤ milliseconds (pos duration)) -ℤ pos (now + wait * 1_000_000))
      ≡ pos duration -ℤ pos wait
unfolding milliseconds to_milliseconds
remaining_lem now wait duration = elim (Bool-cases (leb wait duration)) [
  | inl h ↦ ground arith
  | inr h ↦ ground arith
]

lookup_self :
    (id : Bytes) (t : TimeoutInfo) (m : StdMap Bytes TimeoutInfo)
    → lookup id (insert id t m) ≡ some t
lookup_self id t m = ground (arith, lookup-insert id id t m)

-- After w milliseconds a timeout that was started for d milliseconds has d - w left.
pub remaining-start :
    (now wait duration : ℕ) (id : Bytes) (callback : Option ℕ) (m : TimeoutManager)
    → get_remaining_time
        (pos (now + wait * 1_000_000))
        id
        (start_timeout (pos now) id (pos duration) callback m).0
      ≡ pos duration -ℤ pos wait
unfolding get_remaining_time start_timeout
remaining-start now wait duration id callback m =
    rw (get_remaining_time, lookup_self id _ m.active_timeouts) (remaining_lem now wait duration)
