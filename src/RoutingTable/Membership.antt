-- ===== src/RoutingTable/Membership.antt =====
-- The buckets after the calls of a history.
use dht_crawler.Base.{
  ℕ, zero, suc, ◌+◌, ◌≤◌, ◌≡◌, refl, ℤ, pos, int_key, nat_key, inl, inr, List, [], ◌∷◌, none,
  Option-cases, Bool, Bool-cases, true, false, not, Bytes, bytes_key, StdMap, lookup, Values,
  Values-lookup, All, select, some, arith,
}
use dht_crawler.MonitorThread.{started}
use dht_crawler.RoutingTable.{
  RoutingConfig, Ref, RoutingBucket, RoutingTable, create_bucket, create_buckets,
  initialize_routing_buckets, init, update_config,
}
use dht_crawler.RoutingTable.Nodes.{
  add_node, add_node_with_quality, update_node, update_node_status, get_nodes_in_bucket,
}
use dht_crawler.RoutingTable.Upkeep.{
  cleanup_buckets, cleanup_expired_nodes, clear_expired_nodes, clear_routing_table, update_statuses,
  status_by_size, optimize_routing_table, rebuild, repair_routing_table,
  validate_routing_table_integrity,
}
use dht_crawler.RoutingTable.Buckets.{
  Call, adds, adds_with_quality, splits, merges, configures, removes, evicts, updates, sets_status,
  cleans_up, clears_expired, clears, optimizes, repairs, call, run, AtZero, Holding, IsIndexed,
  IsStarved, IsStarved-frame, All-select,
}
use dht_crawler.RoutingTable.Splits.{
  Below, create_bucket-IsStarved, force_split-IsStarved, force_merge-IsStarved,
}
use dht_crawler.RoutingTable.Starvation.{
  add_node-IsStarved, change_node-IsStarved, remove_node-IsStarved, evict-IsStarved,
}

cleanup_lookup :
    (test : Ref → Bool) (k : ℤ) (m : StdMap ℤ RoutingBucket)
    → lookup k m ≡ none
    → lookup k (cleanup_buckets test m) ≡ none
unfolding lookup cleanup_buckets
cleanup_lookup test k [] e = refl
cleanup_lookup test k ((i, b) ∷ m) e = ground (arith, e, cleanup_lookup test k m)

cleanup_found :
    (test : Ref → Bool) (k : ℤ) (b : RoutingBucket) (m : StdMap ℤ RoutingBucket)
    → lookup k m ≡ some b
    → lookup k (cleanup_buckets test m)
      ≡ some (record b { nodes = select (λ r. not (test r)) b.nodes })
unfolding lookup cleanup_buckets
cleanup_found test k b [] e = absurd cc
cleanup_found test k b ((i, d) ∷ m) e = ground (arith, e, cleanup_found test k b m)

cleanup-IsIndexed :
    (test : Ref → Bool) (m : StdMap ℤ RoutingBucket)
    → IsIndexed m
    → IsIndexed (cleanup_buckets test m)
cleanup-IsIndexed test m v k c e = elim (Option-cases (lookup k m)) [
  | inl gone ↦ absurd (ground (arith, e, cleanup_lookup test k m gone))
  | inr (b, found) ↦ ground (arith, e, cleanup_found test k b m found, v k b found)
]

cleanup-Holding :
    (our : Bytes) (test : Ref → Bool) (m : StdMap ℤ RoutingBucket)
    → Values (Holding our) m
    → Values (Holding our) (cleanup_buckets test m)
unfolding cleanup_buckets
cleanup-Holding our test [] v = tt
cleanup-Holding our test ((i, b) ∷ m) v =
    (All-select (AtZero our) (λ r. not (test r)) b.nodes v.0, cleanup-Holding our test m v.1)

statuses_lookup :
    (config : RoutingConfig) (k : ℤ) (m : StdMap ℤ RoutingBucket)
    → lookup k m ≡ none
    → lookup k (update_statuses config m) ≡ none
unfolding lookup update_statuses
statuses_lookup config k [] e = refl
statuses_lookup config k ((i, b) ∷ m) e = ground (arith, e, statuses_lookup config k m)

statuses_found :
    (config : RoutingConfig) (k : ℤ) (b : RoutingBucket) (m : StdMap ℤ RoutingBucket)
    → lookup k m ≡ some b
    → lookup k (update_statuses config m) ≡ some (record b { status = status_by_size config b })
unfolding lookup update_statuses
statuses_found config k b [] e = absurd cc
statuses_found config k b ((i, d) ∷ m) e = ground (arith, e, statuses_found config k b m)

statuses-IsIndexed :
    (config : RoutingConfig) (m : StdMap ℤ RoutingBucket)
    → IsIndexed m
    → IsIndexed (update_statuses config m)
statuses-IsIndexed config m v k c e = elim (Option-cases (lookup k m)) [
  | inl gone ↦ absurd (ground (arith, e, statuses_lookup config k m gone))
  | inr (b, found) ↦ ground (arith, e, statuses_found config k b m found, v k b found)
]

statuses-Holding :
    (our : Bytes) (config : RoutingConfig) (m : StdMap ℤ RoutingBucket)
    → Values (Holding our) m
    → Values (Holding our) (update_statuses config m)
unfolding update_statuses
statuses-Holding our config [] v = tt
statuses-Holding our config ((i, b) ∷ m) v = (v.0, statuses-Holding our config m v.1)

create_buckets-IsStarved :
    (our : Bytes) (now n i : ℕ) (t : RoutingTable)
    → i + n ≤ 24
    → IsStarved our t
    → IsStarved our (create_buckets now n i t)
unfolding create_buckets
create_buckets-IsStarved our now zero i t h v = v
create_buckets-IsStarved our now (suc n) i t h v =
    create_buckets-IsStarved our now n (i + 1) (create_bucket now (pos i) (pos i) t)
      (omega (arith, h)) (create_bucket-IsStarved our now (pos i) t (omega (arith, h)) v)

fresh-IsStarved :
    (our : Bytes) (now : ℕ) (t : RoutingTable)
    → t.our_node_id ≡ our
    → t.routing_buckets ≡ []
    → IsStarved our (initialize_routing_buckets now t)
unfolding initialize_routing_buckets lookup
fresh-IsStarved our now t same e = create_buckets-IsStarved our now 8 0 t (omega arith) (record {
  ours = same;
  few = λ k le. rw e refl;
  near = rw e tt;
  indexed = rw e (λ k b f. absurd cc);
})

clear-IsStarved :
    (our : Bytes) (now : ℕ) (t : RoutingTable)
    → IsStarved our t
    → IsStarved our (clear_routing_table now t)
unfolding clear_routing_table
clear-IsStarved our now t v = fresh-IsStarved our now _ v.ours refl

clear_expired-IsStarved :
    (our : Bytes) (now : ℕ) (t : RoutingTable)
    → IsStarved our t
    → IsStarved our (clear_expired_nodes now t).0
unfolding clear_expired_nodes
clear_expired-IsStarved our now t v =
    IsStarved-frame our t (clear_expired_nodes now t).0 refl refl v

rebuild-IsStarved :
    (our : Bytes) (now : ℕ) (t : RoutingTable) → IsStarved our t → IsStarved our (rebuild now t).0
unfolding rebuild
rebuild-IsStarved our now t v = elim (Bool-cases (validate_routing_table_integrity t)) [
  | inl ok ↦ rw (ok, rebuild) v
  | inr broken ↦ rw (broken, rebuild) (clear-IsStarved our now t v)
]

repair-IsStarved :
    (our : Bytes) (now : ℕ) (low : Bool) (t : RoutingTable)
    → IsStarved our t
    → IsStarved our (repair_routing_table now low t).0
unfolding repair_routing_table
repair-IsStarved our now low t v = by_flag low
  where
    rebuilt : IsStarved our (rebuild now t).0
    rebuilt = rebuild-IsStarved our now t v

    by_flag : (low : Bool) → IsStarved our (repair_routing_table now low t).0
    by_flag true = clear_expired-IsStarved our now (rebuild now t).0 rebuilt
    by_flag false = rebuilt

add_with_quality-IsStarved :
    (our : Bytes) (now : ℕ) (id ip : Bytes) (port : ℤ) (q : ℕ × ℕ) (rt : ℤ) (t : RoutingTable)
    → IsStarved our t
    → IsStarved our (add_node_with_quality now id ip port q rt t).0
unfolding add_node_with_quality
add_with_quality-IsStarved our now id ip port q rt t v =
    let added = add_node-IsStarved our now id ip port t v in
    elim (Bool-cases (add_node now id ip port t).1) [
      | inl fresh ↦
          rw (fresh, add_node_with_quality)
            (change_node-IsStarved our _ id (add_node now id ip port t).0 added)
      | inr known ↦ rw (known, add_node_with_quality) added
    ]

call-IsStarved :
    (our : Bytes) (now : ℕ) (c : Call) (t : RoutingTable)
    → Below c
    → IsStarved our t
    → IsStarved our (call now c t)
unfolding call update_node update_node_status cleanup_expired_nodes optimize_routing_table
    update_config
call-IsStarved our now (adds id ip port) t w v = add_node-IsStarved our now id ip port t v
call-IsStarved our now (adds_with_quality id ip port q rt) t w v =
    add_with_quality-IsStarved our now id ip port q rt t v
call-IsStarved our now (removes id) t w v = remove_node-IsStarved our id t v
call-IsStarved our now (evicts id) t w v = evict-IsStarved our id now t v
call-IsStarved our now (updates id success rt) t w v = change_node-IsStarved our _ id t v
call-IsStarved our now (sets_status id status) t w v = change_node-IsStarved our _ id t v
call-IsStarved our now cleans_up t w v = record {
  ours = v.ours;
  few = λ k le. cleanup_lookup _ (pos k) t.routing_buckets (v.few k le);
  near = cleanup-Holding our _ t.routing_buckets v.near;
  indexed = cleanup-IsIndexed _ t.routing_buckets v.indexed;
}
call-IsStarved our now clears_expired t w v = clear_expired-IsStarved our now t v
call-IsStarved our now clears t w v = clear-IsStarved our now t v
call-IsStarved our now optimizes t w v = record {
  ours = v.ours;
  few = λ k le. statuses_lookup t.config (pos k) t.routing_buckets (v.few k le);
  near = statuses-Holding our t.config t.routing_buckets v.near;
  indexed = statuses-IsIndexed t.config t.routing_buckets v.indexed;
}
call-IsStarved our now (repairs low) t w v = repair-IsStarved our now low t v
call-IsStarved our now (splits i) t w v = force_split-IsStarved our now i t w v
call-IsStarved our now (merges i) t w v = force_merge-IsStarved our now i t v
call-IsStarved our now (configures config) t w v =
    IsStarved-frame our t (update_config config t) refl refl v

run-IsStarved :
    (our : Bytes) (cs : List (ℕ × Call)) (t : RoutingTable)
    → All (λ c. Below c.1) cs
    → IsStarved our t
    → IsStarved our (run cs t)
unfolding run
run-IsStarved our [] t w v = v
run-IsStarved our ((now, c) ∷ cs) t w v =
    run-IsStarved our cs (call now c t) w.1 (call-IsStarved our now c t w.0 v)

-- After any sequence of calls on a new routing table that add, remove, update, evict, expire or clear
-- nodes, optimise or repair, change the configuration, force a merge of any bucket, or force a split of
-- a bucket below 23, getNodesInBucket answers, for every bucket, nodes at distance 0 of our id only.
pub run-get_nodes_in_bucket :
    (our : Bytes) (config : RoutingConfig) (start : ℕ) (cs : List (ℕ × Call)) (index : ℤ)
    → All (λ c. Below c.1) cs
    → All (AtZero our) (get_nodes_in_bucket index (run cs (init start our config)))
unfolding init get_nodes_in_bucket
run-get_nodes_in_bucket our config start cs index below =
    let fresh : RoutingTable = record {
      config = config;
      our_node_id = our;
      routing_buckets = [];
      node_registry = [];
      store = [];
      next_address = 0;
      monitor = started;
    } in
    let v =
      run-IsStarved our cs (init start our config) below
        (fresh-IsStarved our start fresh refl refl) in
    elim (Option-cases (lookup index (run cs (init start our config)).routing_buckets)) [
      | inl e ↦ rw (e, get_nodes_in_bucket) tt
      | inr (b, e) ↦ rw (e, get_nodes_in_bucket) (Values-lookup (Holding our) index b _ v.near e)
    ]
