-- ===== src/RequestQueue.antt =====
-- QueueEntry and MetadataRequestQueue of src/enhanced_metadata_manager.hpp: a vector of entries and
-- the set of the queued hashes. A priority is an int, here an integer.
pub mod Best
pub mod Validity
use dht_crawler.Base.{
  ℕ, zero, suc, ℤ, bytes_key, Option, none, some, List, [], ◌∷◌, ◌++◌, Bool, Bytes, length, ltb_ℤ,
  if◌then◌else◌, StdSet, contains, add, remove,
}

pub record QueueEntry : Type 0 where
  pub hash : Bytes
  pub priority : ℤ
  pub source : Bytes
  pub queued_time : ℕ

pub record RequestQueue : Type 0 where
  pub queue : List QueueEntry
  pub queue_set : StdSet Bytes

abbrev pub empty : RequestQueue
empty = record { queue = []; queue_set = [] }

unfoldable pub enqueue : ℕ → Bytes → ℤ → Bytes → RequestQueue → RequestQueue
enqueue now hash priority source q = if contains hash q.queue_set then q else record {
  queue =
      q.queue
      ++ record { hash = hash; priority = priority; source = source; queued_time = now } ∷ [];
  queue_set = add hash q.queue_set;
}

-- The loop over the iterators: `best` is the position and the entry of best_it, i that of it.
unfoldable pub best_from : ℕ × QueueEntry → ℕ → List QueueEntry → ℕ × QueueEntry
best_from best i [] = best
best_from best i (x ∷ xs) =
    best_from (if ltb_ℤ best.1.priority x.priority then (i, x) else best) (suc i) xs

-- vector.erase at a position.
unfoldable pub erase_at {ℓ} : {A : Type ℓ} → ℕ → List A → List A
erase_at i [] = []
erase_at zero (x ∷ xs) = xs
erase_at (suc i) (x ∷ xs) = x ∷ erase_at i xs

-- none: the result is false, and nothing changes.
unfoldable pub dequeue : RequestQueue → Option (QueueEntry × RequestQueue)
dequeue q = elim q.queue [
  | [] ↦ none
  | x ∷ xs ↦
      let (i, best) = best_from (0, x) 0 (x ∷ xs) in
      some (best, record { queue = erase_at i (x ∷ xs); queue_set = remove best.hash q.queue_set })
]

unfoldable pub is_queued : Bytes → RequestQueue → Bool
is_queued hash q = contains hash q.queue_set
