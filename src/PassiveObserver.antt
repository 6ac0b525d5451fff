-- ===== src/PassiveObserver.antt =====
-- PassiveObservationManager of src/smart_dht_crawler.hpp: the last 1000 observations, and the set of
-- all the infohashes ever observed. An instant is a number of nanoseconds on the steady clock.
pub mod History
use dht_crawler.Base.{
  ℕ, ◌+◌, ◌*◌, ℤ, pos_part, neg_part, leb_ℤ, List, [], ◌∷◌, ◌++◌, Bool, true, false, Bytes,
  bytes_key, StdSet, contains, add, length, ltb, if◌then◌else◌, select, map,
}

pub record ObservedInfo : Type 0 where
  pub infohash : Bytes
  pub source : Bytes
  pub observed_time : ℕ
  pub peer_count : ℤ
  pub peer_addresses : List Bytes

pub record PassiveObserver : Type 0 where
  pub observations : List ObservedInfo
  pub unique_infohashes_set : StdSet Bytes
  pub total_observations : ℕ
  pub unique_infohashes : ℕ

abbrev pub init : PassiveObserver
init = record {
  observations = [];
  unique_infohashes_set = [];
  total_observations = 0;
  unique_infohashes = 0;
}

-- vector.erase(begin()).
unfoldable pub pop_front {ℓ} : {A : Type ℓ} → List A → List A
pop_front [] = []
pop_front (x ∷ xs) = xs

-- if (m_observations.size() > 1000) m_observations.erase(m_observations.begin()).
unfoldable pub keep_recent {ℓ} : {A : Type ℓ} → List A → List A
unfolding pop_front
keep_recent xs = if ltb 1000 (length xs) then pop_front xs else xs

-- The set and its counter.
unfoldable pub note_unique : Bytes → PassiveObserver → PassiveObserver
note_unique h o = if contains h o.unique_infohashes_set then o else record o {
  unique_infohashes_set = add h o.unique_infohashes_set;
  unique_infohashes = o.unique_infohashes + 1;
}

-- record_observation, with the observation that it makes of its arguments and the clock.
unfoldable pub record_observation : ObservedInfo → PassiveObserver → PassiveObserver
record_observation info o =
    let noted = note_unique info.infohash (record o {
      observations = o.observations ++ info ∷ [];
      total_observations = o.total_observations + 1;
    }) in
    record noted { observations = keep_recent noted.observations }

abbrev pub infohashes : List ObservedInfo → List Bytes
infohashes = map (λ i. i.infohash)

unfoldable pub get_high_value_infohashes : ℤ → PassiveObserver → List Bytes
get_high_value_infohashes min_peers o =
    infohashes (select (λ i. leb_ℤ min_peers i.peer_count) o.observations)

-- observed_time > now - minutes(m).
unfoldable pub is_recent : ℕ → ℤ → ObservedInfo → Bool
is_recent now minutes i =
    ltb (now + neg_part minutes * 60_000_000_000)
      (i.observed_time + pos_part minutes * 60_000_000_000)

unfoldable pub get_recent_infohashes : ℕ → ℤ → PassiveObserver → List Bytes
get_recent_infohashes now minutes o = infohashes (select (is_recent now minutes) o.observations)
