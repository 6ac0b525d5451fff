-- ===== src/RequestQueue/Best.antt =====
-- What dequeue takes: the first entry of the highest priority.
use dht_crawler.Base.{
  ℕ, suc, ◌≤ℤ◌, ◌<ℤ◌, ◌≡◌, refl, ap, ◌⊎◌, inl, inr, none, some, List, [], ◌∷◌, ◌++◌, arith, length,
  length-append, All, All-append, ltb_ℤ, Bool-cases, remove, bytes_key, Bytes, StdSet,
}
use mathlib.Core.List.{append-nil, append_assoc}
use dht_crawler.RequestQueue.{QueueEntry, RequestQueue, best_from, erase_at, dequeue}

-- Everything ahead of `e` has a lower priority, and nothing behind it a higher one.
pub record Splits (l : List QueueEntry) (e : QueueEntry) (pre post : List QueueEntry) : Type 0 where
  pub split : l ≡ pre ++ (e ∷ post)
  pub before : All (λ x. x.priority <ℤ e.priority) pre
  pub after : All (λ x. x.priority ≤ℤ e.priority) post

record Picked (l : List QueueEntry) (b : ℕ × QueueEntry) : Type 0 where
  pre : List QueueEntry
  post : List QueueEntry
  splits : Splits l b.1 pre post
  position : length pre ≡ b.0

lower :
    (e x : QueueEntry) (l : List QueueEntry)
    → e.priority <ℤ x.priority
    → All (λ y. y.priority ≤ℤ e.priority) l
    → All (λ y. y.priority <ℤ x.priority) l
lower e x [] h a = tt
lower e x (y ∷ l) h a = (omega arith, lower e x l h a.1)

weaken :
    (e : QueueEntry) (l : List QueueEntry)
    → All (λ y. y.priority <ℤ e.priority) l
    → All (λ y. y.priority ≤ℤ e.priority) l
weaken e [] a = tt
weaken e (y ∷ l) a = (omega arith, weaken e l a.1)

-- One round of the loop keeps the best of what was seen.
step_higher :
    (seen : List QueueEntry) (b : ℕ × QueueEntry) (x : QueueEntry)
    → Picked seen b
    → b.1.priority <ℤ x.priority
    → Picked (seen ++ x ∷ []) (length seen, x)
step_higher seen b x p h = record {
  pre = seen;
  post = [];
  splits = record { split = refl; before = lowered; after = tt };
  position = refl;
}
  where
    open p use {splits}

    lowered : All (λ y. y.priority <ℤ x.priority) seen
    lowered = rw splits.split (
        lower b.1 x (p.pre ++ (b.1 ∷ p.post)) h (
          All-append _ p.pre (b.1 ∷ p.post) (weaken b.1 p.pre splits.before)
            (omega arith, splits.after)))

step_other :
    (seen : List QueueEntry) (b : ℕ × QueueEntry) (x : QueueEntry)
    → Picked seen b
    → x.priority ≤ℤ b.1.priority
    → Picked (seen ++ x ∷ []) b
step_other seen b x p h = record {
  pre = p.pre;
  post = p.post ++ x ∷ [];
  splits = record {
    split = rw p.splits.split (append_assoc p.pre (b.1 ∷ p.post) (x ∷ []));
    before = p.splits.before;
    after = All-append _ p.post (x ∷ []) p.splits.after (h, tt);
  };
  position = p.position;
}

best_from-Picked :
    (seen : List QueueEntry) (b : ℕ × QueueEntry) (i : ℕ) (xs : List QueueEntry)
    → i ≡ length seen
    → Picked seen b
    → Picked (seen ++ xs) (best_from b i xs)
unfolding best_from
best_from-Picked seen b i [] at p = rw append-nil p
best_from-Picked seen b i (x ∷ xs) at p = elim (Bool-cases (ltb_ℤ b.1.priority x.priority)) [
  | inl higher ↦
      rw (higher, at, ← append_assoc seen (x ∷ []) xs)
        (best_from-Picked (seen ++ x ∷ []) (length seen, x) (suc (length seen)) xs
          (omega (arith, length-append seen (x ∷ []))) (step_higher seen b x p (ground arith)))
  | inr other ↦
      rw (other, ← append_assoc seen (x ∷ []) xs)
        (best_from-Picked (seen ++ x ∷ []) b (suc i) xs (omega (arith, length-append seen (x ∷ [])))
          (step_other seen b x p (ground arith)))
]

erase_at-append {ℓ} :
    {A : Type ℓ} (pre : List A) (x : A) (post : List A)
    → erase_at (length pre) (pre ++ (x ∷ post)) ≡ pre ++ post
unfolding erase_at
erase_at-append [] x post = refl
erase_at-append (y ∷ pre) x post = ap (◌∷◌ y) (erase_at-append pre x post)

-- What dequeue did: the entry it took, and the queue it left.
pub record Dequeued (q : RequestQueue) (e : QueueEntry) (q' : RequestQueue) : Type 0 where
  pub pre : List QueueEntry
  pub post : List QueueEntry
  pub splits : Splits q.queue e pre post
  pub rest : q'.queue ≡ pre ++ post
  pub set : q'.queue_set ≡ remove e.hash q.queue_set

take-Picked :
    (q : RequestQueue) (b : ℕ × QueueEntry)
    → Picked q.queue b
    → Dequeued q b.1
        (record { queue = erase_at b.0 q.queue; queue_set = remove b.1.hash q.queue_set })
take-Picked q b p = record {
  pre = p.pre;
  post = p.post;
  splits = p.splits;
  rest = rw (p.splits.split, ← p.position) (erase_at-append p.pre b.1 p.post);
  set = refl;
}

best_from-cons :
    (x : QueueEntry) (xs : List QueueEntry) → best_from (0, x) 0 (x ∷ xs) ≡ best_from (0, x) 1 xs
unfolding best_from
best_from-cons x xs = elim (Bool-cases (ltb_ℤ x.priority x.priority)) [
  | inl e ↦ rw e
  | inr e ↦ rw e
]

dequeue_cons :
    (x : QueueEntry) (xs : List QueueEntry) (s : StdSet Bytes)
    → let q : RequestQueue = record { queue = x ∷ xs; queue_set = s } in
      (e : QueueEntry) × (q' : RequestQueue) × (dequeue q ≡ some (e, q')) × Dequeued q e q'
unfolding dequeue
dequeue_cons x xs s =
    let q : RequestQueue = record { queue = x ∷ xs; queue_set = s } in
    let b = best_from (0, x) 0 (x ∷ xs) in
    let start : Picked (x ∷ []) (0, x) = record {
      pre = [];
      post = [];
      splits = record { split = refl; before = tt; after = tt };
      position = refl;
    } in
    let picked : Picked (x ∷ xs) b =
      rw best_from-cons (best_from-Picked (x ∷ []) (0, x) 1 xs refl start) in
    (
      b.1,
      record { queue = erase_at b.0 (x ∷ xs); queue_set = remove b.1.hash s },
      refl,
      take-Picked q b picked,
    )

dequeue_list :
    (l : List QueueEntry) (s : StdSet Bytes)
    → let q : RequestQueue = record { queue = l; queue_set = s } in
      ((l ≡ []) × (dequeue q ≡ none))
      ⊎ ((e : QueueEntry) × (q' : RequestQueue) × (dequeue q ≡ some (e, q')) × Dequeued q e q')
unfolding dequeue
dequeue_list [] s = inl (refl, refl)
dequeue_list (x ∷ xs) s = inr (dequeue_cons x xs s)

-- dequeue fails on the empty queue only. Otherwise it takes the first of the entries of the highest
-- priority, leaves the others in their order, and erases the entry's hash from the set.
pub dequeue-Dequeued :
    (q : RequestQueue)
    → ((q.queue ≡ []) × (dequeue q ≡ none))
      ⊎ ((e : QueueEntry) × (q' : RequestQueue) × (dequeue q ≡ some (e, q')) × Dequeued q e q')
dequeue-Dequeued q = dequeue_list q.queue q.queue_set
