-- ===== src/Crawler/Discovery/Unused.antt =====
-- A pool that nobody gave a request.
use dht_crawler.Base.{
  ℕ, suc, zero, ◌+◌, pos, ◌≡◌, refl, sym, subst, List, [], ◌∷◌, none, Bool, Bytes, bytes_key,
  lookup, arith,
}
use dht_crawler.Libtorrent.{Libtorrent}
use dht_crawler.Bep51Indexer.{Bep51Indexer, Query, query_sample_infohashes}
use dht_crawler.WorkerPool
use dht_crawler.WorkerPool.{
  WorkerPool, Worker, held_by, idle_workers, take_request, process_metadata_request,
  cleanup_timeouts, split_timed_out, count_timeouts, MetadataRequest,
}
use dht_crawler.Crawler.Timeouts.{get_timed_out_requests}
use dht_crawler.Crawler.Discovery.{query_nodes}

pub held_by-idle_workers : (i n : ℕ) → held_by i (idle_workers n) ≡ none
unfolding held_by
held_by-idle_workers i zero = refl
held_by-idle_workers zero (suc n) = refl
held_by-idle_workers (suc i) (suc n) = held_by-idle_workers i n

pub collected-query_nodes :
    {S : Type 0} (put : S → Query → S × Bool) (targets : ℕ → Bytes) (i : ℕ) (ids : List Bytes)
    (x : Bep51Indexer S)
    → (query_nodes put targets i ids x).collected_infohashes ≡ x.collected_infohashes
unfolding query_nodes query_sample_infohashes
collected-query_nodes put targets i [] x = refl
collected-query_nodes put targets i (id ∷ ids) x = ground (
  arith,
  collected-query_nodes put targets (i + 1) ids (query_sample_infohashes put (targets i) id [] x).0,
)

abbrev pub new_pool : (lt : Libtorrent) → lt.Session → WorkerPool lt
new_pool lt s = WorkerPool.init s 10 (pos 20)

module _ {lt : Libtorrent} where
  -- The pool as it is made, up to the session.
  abbrev pub IsUnused : WorkerPool lt → Type 0
  IsUnused p = p ≡ WorkerPool.init p.session 10 (pos 20)

  pub take-IsUnused : (i : ℕ) (s : lt.Session) → IsUnused (take_request i (new_pool lt s))
  unfolding take_request WorkerPool.init
  take-IsUnused i s = ground (arith, held_by-idle_workers i 10)

  pub process-IsUnused :
      (now i : ℕ) (s : lt.Session) → IsUnused (process_metadata_request now i (new_pool lt s))
  unfolding process_metadata_request WorkerPool.init held_by
  process-IsUnused now i s = rw (held_by-idle_workers i 10)

  pub received-IsUnused :
      (h : Bytes) (s : lt.Session)
      → IsUnused (WorkerPool.handle_metadata_received h (new_pool lt s))
  unfolding WorkerPool.handle_metadata_received WorkerPool.init lookup
  received-IsUnused h s = refl

  timeouts-IsUnused :
      (now : ℕ) (s : lt.Session)
      → get_timed_out_requests now (cleanup_timeouts now (new_pool lt s)) ≡ (new_pool lt s, [])
  unfolding get_timed_out_requests cleanup_timeouts split_timed_out count_timeouts WorkerPool.init
  timeouts-IsUnused now s = refl

  -- What holds for a new pool holds for an unused one.
  pub IsUnused-rule :
      (f : WorkerPool lt → WorkerPool lt)
      → ((s : lt.Session) → IsUnused (f (new_pool lt s)))
      → (p : WorkerPool lt) → IsUnused p
      → IsUnused (f p)
  IsUnused-rule f h p e = subst (λ q. IsUnused (f q)) (sym e) (h p.session)

  pub timeouts_none :
      (now : ℕ) (p : WorkerPool lt)
      → IsUnused p
      → get_timed_out_requests now (cleanup_timeouts now p) ≡ (p, [])
  timeouts_none now p e =
      subst (λ q. get_timed_out_requests now (cleanup_timeouts now q) ≡ (q, [])) (sym e)
        (timeouts-IsUnused now p.session)
