-- ===== src/RequestQueue/Validity.antt =====
-- The queue and its set agree: each queued hash stands once in the vector, and the set holds
-- exactly the queued hashes.
use mathlib.Core.List.{append-nil}
use dht_crawler.Base.{
  ℕ, ◌+◌, ◌≡◌, refl, inl, inr, List, [], ◌∷◌, ◌++◌, arith, ℤ, Bool, true, false, Bytes,
  Bytes-discrete, bytes_key, length, length-append, Bool-cases, contains, contains-add,
  contains-remove,
}
use dht_crawler.RequestQueue.{QueueEntry, RequestQueue, empty, enqueue}
use dht_crawler.RequestQueue.Best.{Dequeued}

-- Whether the vector has an entry for a hash.
unfoldable pub has_hash : Bytes → List QueueEntry → Bool
has_hash h [] = false
has_hash h (x ∷ xs) = elim (Bytes-discrete x.hash h) [ yes _ ↦ true | no _ ↦ has_hash h xs ]

abbrev pub Distinct : List QueueEntry → Type 0
Distinct [] = Unit
Distinct (x ∷ xs) = (has_hash x.hash xs ≡ false) × Distinct xs

pub record IsValid (q : RequestQueue) : Type 0 where
  pub agree : (h : Bytes) → contains h q.queue_set ≡ has_hash h q.queue
  pub distinct : Distinct q.queue

pub has_hash-append :
    (h : Bytes) (xs : List QueueEntry) (x : QueueEntry) (ys : List QueueEntry)
    → has_hash h (xs ++ (x ∷ ys))
      ≡ elim (Bytes-discrete x.hash h) [ yes _ ↦ true | no _ ↦ has_hash h (xs ++ ys) ]
unfolding has_hash
has_hash-append h [] x ys = refl
has_hash-append h (y ∷ xs) x ys = ground (arith, has_hash-append h xs x ys)

Distinct-erase :
    (xs : List QueueEntry) (x : QueueEntry) (ys : List QueueEntry)
    → Distinct (xs ++ (x ∷ ys))
    → Distinct (xs ++ ys) × (has_hash x.hash (xs ++ ys) ≡ false)
unfolding has_hash
Distinct-erase [] x ys d = (d.1, d.0)
Distinct-erase (y ∷ xs) x ys d =
    let ih = Distinct-erase xs x ys d.1 in
    ground (arith, ih.0, ih.1, has_hash-append y.hash xs x ys)

Distinct-add :
    (xs : List QueueEntry) (x : QueueEntry)
    → Distinct xs
    → has_hash x.hash xs ≡ false
    → Distinct (xs ++ x ∷ [])
unfolding has_hash
Distinct-add [] x d h = (refl, tt)
Distinct-add (y ∷ xs) x d h =
    let ih = Distinct-add xs x d.1 in
    ground (arith, ih, has_hash-append y.hash xs x [], append-nil xs)

pub empty-IsValid : IsValid empty
unfolding contains has_hash
empty-IsValid = record { agree = λ h. refl; distinct = tt }

enqueue_new :
    (now : ℕ) (h : Bytes) (p : ℤ) (src : Bytes) (q : RequestQueue)
    → IsValid q
    → contains h q.queue_set ≡ false
    → IsValid (enqueue now h p src q)
unfolding enqueue has_hash
enqueue_new now h p src q v new =
    let x : QueueEntry = record { hash = h; priority = p; source = src; queued_time = now } in
    rw (new, enqueue)
      (record {
        agree = λ k. ground (
          arith,
          contains-add h k q.queue_set,
          has_hash-append k q.queue x [],
          append-nil q.queue,
          v.agree k,
        );
        distinct = Distinct-add q.queue x v.distinct (ground (arith, v.agree h));
      })

enqueue_old :
    (now : ℕ) (h : Bytes) (p : ℤ) (src : Bytes) (q : RequestQueue)
    → contains h q.queue_set ≡ true
    → enqueue now h p src q ≡ q
unfolding enqueue
enqueue_old now h p src q old = rw old

-- enqueue keeps the queue valid.
pub enqueue-IsValid :
    (now : ℕ) (h : Bytes) (p : ℤ) (src : Bytes) (q : RequestQueue)
    → IsValid q
    → IsValid (enqueue now h p src q)
enqueue-IsValid now h p src q v = elim (Bool-cases (contains h q.queue_set)) [
  | inl old ↦ rw (enqueue_old now h p src q old) v
  | inr new ↦ enqueue_new now h p src q v new
]

-- After enqueue the hash is queued, and no other hash has changed.
pub has_hash-enqueue :
    (now : ℕ) (h k : Bytes) (p : ℤ) (src : Bytes) (q : RequestQueue)
    → IsValid q
    → has_hash k (enqueue now h p src q).queue
      ≡ elim (Bytes-discrete h k) [ yes _ ↦ true | no _ ↦ has_hash k q.queue ]
unfolding enqueue has_hash
has_hash-enqueue now h k p src q v =
    let x : QueueEntry = record { hash = h; priority = p; source = src; queued_time = now } in
    ground (arith, has_hash-append k q.queue x [], append-nil q.queue, v.agree h, v.agree k)

-- A hash that is not queued takes one more place.
pub length-enqueue :
    (now : ℕ) (h : Bytes) (p : ℤ) (src : Bytes) (q : RequestQueue)
    → contains h q.queue_set ≡ false
    → length (enqueue now h p src q).queue ≡ length q.queue + 1
unfolding enqueue
length-enqueue now h p src q new = rw (new, enqueue) (length-append q.queue _)

-- What is known of the queue that dequeue leaves.
pub record Left (q : RequestQueue) (e : QueueEntry) (q' : RequestQueue) : Type 0 where
  pub valid : IsValid q'
  pub was : has_hash e.hash q.queue ≡ true
  pub gone : contains e.hash q'.queue_set ≡ false
  pub others :
      (k : Bytes)
      → has_hash k q'.queue
        ≡ elim (Bytes-discrete e.hash k) [ yes _ ↦ false | no _ ↦ has_hash k q.queue ]
  pub size : length q.queue ≡ length q'.queue + 1

others_lem :
    {q q' : RequestQueue} (e : QueueEntry) (d : Dequeued q e q') (k : Bytes)
    → Distinct q.queue
    → has_hash k q'.queue
      ≡ elim (Bytes-discrete e.hash k) [ yes _ ↦ false | no _ ↦ has_hash k q.queue ]
others_lem {q} {q'} e d k dist =
    let split = d.splits.split in
    let rest = d.rest in
    let h = Distinct-erase d.pre e d.post (rw split at dist) in
    ground (arith, h.1, has_hash-append k d.pre e d.post)

-- dequeue keeps the queue valid, and removes one hash.
pub dequeue-Left :
    (q : RequestQueue) (e : QueueEntry) (q' : RequestQueue)
    → IsValid q
    → Dequeued q e q'
    → Left q e q'
unfolding has_hash
dequeue-Left q e q' v d = record {
  valid = record {
    agree = λ k. ground (arith, v.agree k, rest k, contains-remove e.hash k q.queue_set, d.set);
    distinct = rw d.rest (Distinct-erase d.pre e d.post (rw d.splits.split at v.distinct)).0;
  };
  was = rw d.splits.split (ground (arith, has_hash-append e.hash d.pre e d.post));
  gone = ground (arith, contains-remove e.hash e.hash q.queue_set, d.set);
  others = rest;
  size =
      rw (d.splits.split, d.rest)
        (omega (arith, length-append d.pre (e ∷ d.post), length-append d.pre d.post));
}
  where
    rest :
        (k : Bytes)
        → has_hash k q'.queue
          ≡ elim (Bytes-discrete e.hash k) [ yes _ ↦ false | no _ ↦ has_hash k q.queue ]
    rest k = others_lem e d k v.distinct
