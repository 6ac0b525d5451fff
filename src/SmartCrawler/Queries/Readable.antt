-- ===== src/SmartCrawler/Queries/Readable.antt =====
-- std::stoi reads every hash that an observer of hex texts gives to send_smart_queries.
use dht_crawler.Base.{
  ℕ, ◌+◌, ◌≡◌, refl, ap, List, [], ◌∷◌, ◌++◌, Option, none, some, Bool, true, false, Bytes,
  bytes_key, length, ◌==◌, All, All-append, add, select, arith,
}
use dht_crawler.Libtorrent.{DhtSession}
use dht_crawler.HashFormat.{bytes_to_hex}
use dht_crawler.PassiveObserver.{
  ObservedInfo, PassiveObserver, infohashes, pop_front, keep_recent, note_unique,
  record_observation, get_recent_infohashes, get_high_value_infohashes,
}
use dht_crawler.Stoi.Hex.{target_of, target_of-bytes_to_hex_mod}
use dht_crawler.SmartCrawler.{SmartCrawler, add_all, get_priority_infohashes}
use dht_crawler.SmartCrawler.Queries.{query_target, query_hashes, query_random, send_smart_queries}

abbrev pub is_read {ℓ} : {A : Type ℓ} → Option A → Bool
is_read none = false
is_read (some a) = true

abbrev pub is_readable : Bytes → Bool
is_readable h = is_read (target_of h)

abbrev pub IsReadable : Bytes → Type 0
IsReadable h = is_readable h ≡ true

-- All the observations that are kept.
abbrev pub IsObserved : PassiveObserver → Type 0
IsObserved o = All (λ i. IsReadable i.infohash) o.observations

pub bytes_to_hex-IsReadable : (bs : Bytes) → IsReadable (bytes_to_hex bs)
bytes_to_hex-IsReadable bs = ap is_read (target_of-bytes_to_hex_mod bs)

module _ {ℓ κ} {A : Type ℓ} (P : A → Type κ) where
  All-pop_front : (xs : List A) → All P xs → All P (pop_front xs)
  unfolding pop_front
  All-pop_front [] a = a
  All-pop_front (x ∷ xs) a = a.1

  All-select : (f : A → Bool) (xs : List A) → All P xs → All P (select f xs)
  All-select f [] a = a
  All-select f (x ∷ xs) a = ground (arith, a.0, All-select f xs a.1)

All-infohashes :
    (is : List ObservedInfo) → All (λ i. IsReadable i.infohash) is → All IsReadable (infohashes is)
All-infohashes [] a = a
All-infohashes (i ∷ is) a = (a.0, All-infohashes is a.1)

All-add : (h : Bytes) (s : List Bytes) → IsReadable h → All IsReadable s → All IsReadable (add h s)
unfolding add
All-add h [] r a = (r, tt)
All-add h (k ∷ s) r a = ground (arith, r, a.0, a.1, All-add h s r a.1)

All-add_all :
    (hs s : List Bytes) → All IsReadable hs → All IsReadable s → All IsReadable (add_all hs s)
unfolding add_all
All-add_all [] s b a = a
All-add_all (h ∷ hs) s b a = All-add_all hs (add h s) b.1 (All-add h s b.0 a)

pub record_observation-IsObserved :
    (i : ObservedInfo) (o : PassiveObserver)
    → IsReadable i.infohash
    → IsObserved o
    → IsObserved (record_observation i o)
unfolding record_observation note_unique keep_recent
record_observation-IsObserved i o r a =
    let all = All-append _ o.observations (i ∷ []) a (r, tt) in
    ground (arith, all, All-pop_front _ (o.observations ++ i ∷ []) all)

module _ {dht : DhtSession} where
  priority-IsReadable :
      (now : ℕ) (c : SmartCrawler dht)
      → IsObserved c.passive_observer
      → All IsReadable (get_priority_infohashes now c)
  unfolding get_priority_infohashes get_recent_infohashes get_high_value_infohashes
  priority-IsReadable now c a =
      All-add_all _ _ (All-infohashes _ (All-select _ _ c.passive_observer.observations a))
        (All-add_all _ [] (All-infohashes _ (All-select _ _ c.passive_observer.observations a)) tt)

  -- A call that did not throw and left the observer.
  abbrev pub Returned : SmartCrawler dht → SmartCrawler dht × Bool → Type 0
  Returned c r = (r.1 ≡ true) × (r.0.passive_observer ≡ c.passive_observer)

  module _ (clock : ℕ → ℕ) where
    query_hashes_read :
        (i : ℕ) (hs : List Bytes) (c : SmartCrawler dht)
        → All IsReadable hs
        → Returned c (query_hashes clock i hs c)
    unfolding query_hashes query_target
    query_hashes_read i [] c a = (refl, refl)
    query_hashes_read i (h ∷ hs) c a =
        elim (length h == 40)
          as (λ b. Returned c (elim b [
            | false ↦ query_hashes clock i hs c
            | true ↦ elim (target_of h) [
              | none ↦ (c, false)
              | some t ↦ query_hashes clock (i + 1) hs (query_target clock i t c)
            ]
          ])) [
            | false ↦ query_hashes_read i hs c a.1
            | true ↦
                elim (target_of h)
                    as (λ o.
                      is_read o ≡ true
                      → Returned c (elim o [
                        | none ↦ (c, false)
                        | some t ↦ query_hashes clock (i + 1) hs (query_target clock i t c)
                      ])) [
                        | none ↦ λ r. absurd cc
                        | some t ↦ λ r. query_hashes_read (i + 1) hs (query_target clock i t c) a.1
                      ]
                  a.0
          ]

    -- No hash makes the call throw, and it leaves the observer.
    pub send_smart_queries_read :
        (now : ℕ) (draws : ℕ → Bytes) (c : SmartCrawler dht)
        → IsObserved c.passive_observer
        → Returned c (send_smart_queries clock now draws c)
    unfolding send_smart_queries query_random query_target
    send_smart_queries_read now draws c a =
        elim (get_priority_infohashes now c)
            as (λ hs.
              All IsReadable hs
              → Returned c (elim hs [
                | [] ↦ (query_random clock draws c, true)
                | h ∷ rest ↦ query_hashes clock 0 (h ∷ rest) c
              ])) [ [] ↦ λ r. (refl, refl) | h ∷ rest ↦ λ r. query_hashes_read 0 (h ∷ rest) c r ]
          (priority-IsReadable now c a)
