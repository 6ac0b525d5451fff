-- ===== src/SmartCrawler/Rates.antt =====
-- What the adaptive rate does: the count of all the queries ever sent stands for the current rate.
use dht_crawler.Base.{
  ℕ, ◌+◌, pos, ◌<ℤ◌, ◌≤ℤ◌, ◌≡◌, refl, List, [], ◌∷◌, Bool, true, false, ◌||◌, Bytes, bytes_key,
  contains, add, contains-add, arith, select, leb_ℤ, ◌⊎◌, ◌↔◌, ◌<◌, sym, ◌∙◌,
}
use dht_crawler.Libtorrent.{DhtSession}
use dht_crawler.RateLimiter.{set_rate_limit}
use dht_crawler.PassiveObserver.{
  ObservedInfo, infohashes, is_recent, get_high_value_infohashes, get_recent_infohashes,
}
use dht_crawler.SmartCrawler.{
  SmartCrawler, adjust_rate_based_on_success, add_all, get_priority_infohashes,
}

module _ {dht : DhtSession} where
  -- With a poor success rate, after more queries than the base rate, the limit rises wherever it is
  -- below the number of queries sent less one.
  pub adjust_rate-poor_rises :
      (c : SmartCrawler dht) (t : ℕ)
      → c.adaptive_rate ≡ true
      → c.rate_limiter.total_queries ≡ t + 1
      → c.base_rate <ℤ pos (t + 1)
      → c.rate_limiter.queries_per_second <ℤ pos t
      → c.rate_limiter.queries_per_second
        <ℤ (adjust_rate_based_on_success false true c).rate_limiter.queries_per_second
  unfolding adjust_rate_based_on_success set_rate_limit
  adjust_rate-poor_rises c t adaptive total base low = ground arith

  -- With a good success rate nothing changes once as many queries were sent as the highest rate.
  pub adjust_rate-good_stuck :
      (c : SmartCrawler dht) (below : Bool)
      → c.max_rate ≤ℤ pos c.rate_limiter.total_queries
      → adjust_rate_based_on_success true below c ≡ c
  unfolding adjust_rate_based_on_success
  adjust_rate-good_stuck c below h = ground arith

contains-add_all :
    (h : Bytes) (hs s : List Bytes) → contains h (add_all hs s) ≡ (contains h hs || contains h s)
unfolding add_all contains
contains-add_all h [] s = refl
contains-add_all h (k ∷ hs) s = ground (arith, contains-add_all h hs (add k s), contains-add k h s)

-- Among these observations is one of the hash that has 3 peers or more, or is less than ten minutes
-- old; an instant is in nanoseconds.
abbrev pub IsWanted : ℕ → Bytes → List ObservedInfo → Type 0
IsWanted now h [] = ⊥
IsWanted now h (i ∷ is) =
    ((i.infohash ≡ h) × ((pos 3 ≤ℤ i.peer_count) ⊎ (now < i.observed_time + 600_000_000_000)))
    ⊎ IsWanted now h is

module _ (now : ℕ) (h : Bytes) where
  abbrev among_recent : List ObservedInfo → Bool
  among_recent is = contains h (infohashes (select (is_recent now (pos 10)) is))

  abbrev among_high : List ObservedInfo → Bool
  among_high is = contains h (infohashes (select (λ i. leb_ℤ (pos 3) i.peer_count) is))

  contains-IsWanted :
      (is : List ObservedInfo) → (among_recent is || among_high is) ≡ true → IsWanted now h is
  unfolding contains is_recent
  contains-IsWanted [] e = absurd cc
  contains-IsWanted (i ∷ is) e = ground (arith, e, contains-IsWanted is)

  IsWanted-contains :
      (is : List ObservedInfo) → IsWanted now h is → (among_recent is || among_high is) ≡ true
  unfolding contains is_recent
  IsWanted-contains [] w = absurd w
  IsWanted-contains (i ∷ is) w = ground (arith, w, IsWanted-contains is)

-- A hash is among the priority infohashes exactly if there is, among the observations that the
-- observer keeps, one of it with 3 peers or more, or one of it from the last ten minutes.
pub contains-get_priority_infohashes :
    {dht : DhtSession} (now : ℕ) (h : Bytes) (c : SmartCrawler dht)
    → (contains h (get_priority_infohashes now c) ≡ true)
      ↔ IsWanted now h c.passive_observer.observations
unfolding get_priority_infohashes get_recent_infohashes get_high_value_infohashes contains
contains-get_priority_infohashes now h c =
    let recent = get_recent_infohashes now (pos 10) c.passive_observer in
    let high = get_high_value_infohashes (pos 3) c.passive_observer in
    let both : contains h (get_priority_infohashes now c) ≡ (contains h recent || contains h high) =
      ground (arith, contains-add_all h recent (add_all high []), contains-add_all h high []) in
    (
      λ e. contains-IsWanted now h c.passive_observer.observations (sym both ∙ e),
      λ w. both ∙ IsWanted-contains now h c.passive_observer.observations w,
    )
