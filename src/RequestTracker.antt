-- ===== src/RequestTracker.antt =====
-- ActiveRequestTracker of src/enhanced_metadata_manager.hpp: the requests in progress by hash. An
-- instant is a number of nanoseconds on the steady clock, which never runs backwards, so that the
-- time since a request is not cut off at 0.
use dht_crawler.Base.{
  ℕ, ◌+◌, ◌-◌, ◌/◌, ◌^◌, ℤ, pos, negsuc, ◌-ℤ◌, ltb_ℤ, leb_ℤ, List, [], ◌∷◌, none, some, Bool, true,
  false, Bytes, StdMap, lookup, insert, erase, length, if◌then◌else◌, bytes_key,
}

pub record RequestInfo (H : Type 0) : Type 0 where
  pub request_time : ℕ
  pub priority : ℤ
  pub source : Bytes
  pub handle : H

abbrev pub Tracker : Type 0 → Type 0
Tracker H = StdMap Bytes (RequestInfo H)

-- size_t of an int: a negative one wraps round.
unfoldable pub to_size_t : ℤ → ℕ
to_size_t (pos n) = n
to_size_t (negsuc n) = 2 ^ 64 - (n + 1)

module _ {H : Type 0} where
  unfoldable pub add_request : Bytes → ℕ → ℤ → Bytes → H → Tracker H → Tracker H
  add_request hash now priority source handle t =
      insert hash
        (record { request_time = now; priority = priority; source = source; handle = handle }) t

  unfoldable pub remove_request : Bytes → Tracker H → Tracker H
  remove_request hash t = erase hash t

  unfoldable pub has_request : Bytes → Tracker H → Bool
  has_request hash t = elim (lookup hash t) [ none ↦ false | some _ ↦ true ]

  -- duration_cast<seconds>(now - request_time).count() >= timeout_seconds.
  unfoldable pub is_timed_out : ℕ → ℤ → RequestInfo H → Bool
  is_timed_out now timeout_seconds r =
      leb_ℤ timeout_seconds (pos ((now - r.request_time) / 1_000_000_000))

  unfoldable pub get_timed_out_requests : ℕ → ℤ → Tracker H → List Bytes
  get_timed_out_requests now timeout_seconds [] = []
  get_timed_out_requests now timeout_seconds ((hash, r) ∷ t) =
      let rest = get_timed_out_requests now timeout_seconds t in
      if is_timed_out now timeout_seconds r then hash ∷ rest else rest

  -- std::max(0, max_concurrent - static_cast<int>(m_requests.size())).
  unfoldable pub get_available_slots : ℤ → Tracker H → ℤ
  get_available_slots max_concurrent t =
      let slots = max_concurrent -ℤ pos (length t) in if ltb_ℤ (pos 0) slots then slots else pos 0
