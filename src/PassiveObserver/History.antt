-- ===== src/PassiveObserver/History.antt =====
-- The observer against the history of all that it was ever told.
use mathlib.Core.List.{append-nil, append_assoc}
use dht_crawler.Base.{
  ℕ, zero, suc, ◌+◌, ◌-◌, ◌≤◌, ◌≡◌, refl, ap, ◌∙◌, inl, inr, List, [], ◌∷◌, ◌++◌, Bool, true, false,
  Bytes, bytes_key, Bytes-discrete, contains, contains-add, length-add_new, length, length-append,
  ltb, arith, Bool-cases,
}
use dht_crawler.PassiveObserver.{
  ObservedInfo, PassiveObserver, init, pop_front, keep_recent, note_unique, record_observation,
}

-- The last n elements of a list.
abbrev pub drop {ℓ} : {A : Type ℓ} → ℕ → List A → List A
drop zero xs = xs
drop (suc n) [] = []
drop (suc n) (x ∷ xs) = drop n xs

unfoldable pub last_of {ℓ} : {A : Type ℓ} → ℕ → List A → List A
last_of n xs = drop (length xs - n) xs

-- Whether a hash was observed in a history.
unfoldable pub was_seen : Bytes → List ObservedInfo → Bool
was_seen h [] = false
was_seen h (i ∷ is) = elim (Bytes-discrete i.infohash h) [ yes _ ↦ true | no _ ↦ was_seen h is ]

pub was_seen-snoc :
    (h : Bytes) (is : List ObservedInfo) (i : ObservedInfo)
    → was_seen h (is ++ i ∷ [])
      ≡ elim (Bytes-discrete i.infohash h) [ yes _ ↦ true | no _ ↦ was_seen h is ]
unfolding was_seen
was_seen-snoc h [] i = refl
was_seen-snoc h (j ∷ is) i = ground (arith, was_seen-snoc h is i)

module _ {ℓ} {A : Type ℓ} where
  length-drop : (n : ℕ) (xs : List A) → length (drop n xs) ≡ length xs - n
  length-drop zero xs = omega arith
  length-drop (suc n) [] = omega arith
  length-drop (suc n) (x ∷ xs) = omega (arith, length-drop n xs)

  drop-snoc :
      (n : ℕ) (xs : List A) (x : A) → n ≤ length xs → drop n (xs ++ x ∷ []) ≡ drop n xs ++ x ∷ []
  drop-snoc zero xs x h = refl
  drop-snoc (suc n) [] x h = absurd (omega arith)
  drop-snoc (suc n) (y ∷ xs) x h = drop-snoc n xs x (omega arith)

  pop_front-drop : (n : ℕ) (xs : List A) → pop_front (drop n xs) ≡ drop (suc n) xs
  unfolding pop_front
  pop_front-drop zero [] = refl
  pop_front-drop zero (x ∷ xs) = refl
  pop_front-drop (suc n) [] = refl
  pop_front-drop (suc n) (x ∷ xs) = pop_front-drop n xs

  drop_eq : (m n : ℕ) (xs : List A) → m ≡ n → drop m xs ≡ drop n xs
  drop_eq m n xs e = ap (λ (t : ℕ). drop t xs) e

  -- Adding at the end and dropping the front keeps the last 1000.
  keep_recent-last_of :
      (xs : List A) (x : A) → keep_recent (last_of 1000 xs ++ x ∷ []) ≡ last_of 1000 (xs ++ x ∷ [])
  unfolding keep_recent last_of
  keep_recent-last_of xs x =
      let k = length xs - 1000 in
      let ys = xs ++ x ∷ [] in
      rw (← drop-snoc k xs x (omega arith)) (elim (Bool-cases (ltb 1000 (length (drop k ys)))) [
        | inl over ↦ rw over (
            pop_front-drop k ys
            ∙ drop_eq (suc k) (length ys - 1000) ys
                (ground (arith, length-drop k ys, length-append xs (x ∷ []))))
        | inr fits ↦ rw fits (
            drop_eq k (length ys - 1000) ys
              (ground (arith, length-drop k ys, length-append xs (x ∷ []))))
      ])

-- The observer agrees with the history of what it was told: it has the last 1000 observations, it
-- counts them all, its set holds exactly the hashes ever seen, and the counter is the set's size.
pub record Tracks (history : List ObservedInfo) (o : PassiveObserver) : Type 0 where
  pub recent : o.observations ≡ last_of 1000 history
  pub total : o.total_observations ≡ length history
  pub seen : (h : Bytes) → contains h o.unique_infohashes_set ≡ was_seen h history
  pub unique : o.unique_infohashes ≡ length o.unique_infohashes_set

note_unique-seen :
    (h k : Bytes) (o : PassiveObserver)
    → contains k (note_unique h o).unique_infohashes_set
      ≡ elim (Bytes-discrete h k) [ yes _ ↦ true | no _ ↦ contains k o.unique_infohashes_set ]
unfolding note_unique
note_unique-seen h k o = ground (arith, contains-add h k o.unique_infohashes_set)

note_unique_unique :
    (h : Bytes) (o : PassiveObserver)
    → o.unique_infohashes ≡ length o.unique_infohashes_set
    → (note_unique h o).unique_infohashes ≡ length (note_unique h o).unique_infohashes_set
unfolding note_unique
note_unique_unique h o e = ground (arith, length-add_new h o.unique_infohashes_set)

note_unique_same :
    (h : Bytes) (o : PassiveObserver)
    → ((note_unique h o).observations ≡ o.observations)
      × ((note_unique h o).total_observations ≡ o.total_observations)
unfolding note_unique
note_unique_same h o = ground arith

record_observation-Tracks :
    (i : ObservedInfo) (history : List ObservedInfo) (o : PassiveObserver)
    → Tracks history o
    → Tracks (history ++ i ∷ []) (record_observation i o)
unfolding record_observation
record_observation-Tracks i history o v =
    let pushed : PassiveObserver = record o {
      observations = o.observations ++ i ∷ [];
      total_observations = o.total_observations + 1;
    } in
    let same = note_unique_same i.infohash pushed in
    record {
      recent =
          ap keep_recent (same.0 ∙ ap (λ l. l ++ i ∷ []) v.recent) ∙ keep_recent-last_of history i;
      total = omega (arith, same.1, v.total, length-append history (i ∷ []));
      seen = λ h.
          ground (arith, note_unique-seen i.infohash h pushed, v.seen h, was_seen-snoc h history i);
      unique = note_unique_unique i.infohash pushed v.unique;
    }

-- record_observation over a history.
unfoldable pub observe_all : PassiveObserver → List ObservedInfo → PassiveObserver
observe_all o [] = o
observe_all o (i ∷ is) = observe_all (record_observation i o) is

observe_all-Tracks :
    (history is : List ObservedInfo) (o : PassiveObserver)
    → Tracks history o
    → Tracks (history ++ is) (observe_all o is)
unfolding observe_all
observe_all-Tracks history [] o v = rw append-nil v
observe_all-Tracks history (i ∷ is) o v = rw (← append_assoc history (i ∷ []) is) (
    observe_all-Tracks (history ++ i ∷ []) is (record_observation i o)
      (record_observation-Tracks i history o v))

-- From the start, the observer has the last 1000 observations of any history, counts them all, and
-- knows exactly the infohashes that occur in it, each once in the count.
pub observe_all-init-Tracks :
    (history : List ObservedInfo) → Tracks history (observe_all init history)
unfolding was_seen last_of contains
observe_all-init-Tracks history =
    observe_all-Tracks [] history init
      (record { recent = refl; total = refl; seen = λ h. refl; unique = refl })
