-- ===== src/RoutingTable/Upkeep.antt =====
-- The loops over the buckets and the registry, of src/routing_table_manager.cpp. monitorRoutingTable
-- is left out: a merge in its loop erases the bucket that the loop stands at, which is undefined.
use dht_crawler.Base.{
  ℕ, ◌+◌, ℤ, pos, int_key, nat_key, ltb_ℤ, ◌+ℤ◌, ◌-ℤ◌, List, [], ◌∷◌, ◌++◌, none, some, Bool, true,
  false, not, ◌&&◌, Bytes, bytes_key, StdMap, lookup, insert, erase, length, select, ltb, leb, ◌==◌,
  if◌then◌else◌, ℤ_discrete,
}
use dht_crawler.RoutingTable.{
  bad, BucketStatus, active, inactive, full, split, merged, RoutingConfig, DhtNode, Ref,
  RoutingBucket, RoutingTable, create_bucket, initialize_routing_buckets,
}
use dht_crawler.RoutingTable.Nodes.{milliseconds, modify_node}

-- now - last_seen > milliseconds(node_timeout).
unfoldable pub is_node_expired : ℕ → RoutingConfig → DhtNode → Bool
is_node_expired now config n = ltb (n.last_seen + milliseconds config.node_timeout) now

-- A test of the node behind a pointer.
unfoldable pub node_passes : (DhtNode → Bool) → StdMap ℕ DhtNode → Ref → Bool
node_passes test store r = elim (lookup r.address store) [ none ↦ false | some n ↦ test n ]

unfoldable pub cleanup_buckets : (Ref → Bool) → StdMap ℤ RoutingBucket → StdMap ℤ RoutingBucket
cleanup_buckets test [] = []
cleanup_buckets test ((i, b) ∷ m) =
    (i, record b { nodes = select (λ r. not (test r)) b.nodes }) ∷ cleanup_buckets test m

unfoldable pub cleanup_expired_nodes : ℕ → RoutingTable → RoutingTable
cleanup_expired_nodes now t = record t {
  routing_buckets =
      cleanup_buckets (node_passes (is_node_expired now t.config) t.store) t.routing_buckets;
}

-- The loop that erases the nodes that pass a test from the registry, and counts them.
unfoldable pub drop_nodes : (Ref → Bool) → StdMap Bytes Ref → StdMap Bytes Ref × ℕ
drop_nodes test [] = ([], 0)
drop_nodes test ((id, r) ∷ m) =
    let (kept, count) = drop_nodes test m in
    if test r then (kept, count + 1) else ((id, r) ∷ kept, count)

unfoldable pub clear_expired_nodes : ℕ → RoutingTable → RoutingTable × ℕ
clear_expired_nodes now t =
    let (kept, count) =
      drop_nodes (node_passes (is_node_expired now t.config) t.store) t.node_registry in
    (record t { node_registry = kept }, count)

unfoldable pub clear_routing_table : ℕ → RoutingTable → RoutingTable
clear_routing_table now t =
    initialize_routing_buckets now (record t { node_registry = []; routing_buckets = [] })

unfoldable pub is_bad : DhtNode → Bool
is_bad n = elim n.status [ bad ↦ true | _ ↦ false ]

unfoldable pub status_by_size : RoutingConfig → RoutingBucket → BucketStatus
status_by_size config b =
    if leb config.max_bucket_size (length b.nodes)
    then full
    else if ltb (length b.nodes) config.min_bucket_size
    then inactive
    else active

unfoldable pub update_statuses : RoutingConfig → StdMap ℤ RoutingBucket → StdMap ℤ RoutingBucket
update_statuses config [] = []
update_statuses config ((i, b) ∷ m) =
    (i, record b { status = status_by_size config b }) ∷ update_statuses config m

unfoldable pub optimize_routing_table : RoutingTable → RoutingTable
optimize_routing_table t = record t {
  node_registry = (drop_nodes (node_passes is_bad t.store) t.node_registry).0;
  routing_buckets = update_statuses t.config t.routing_buckets;
}

unfoldable pub should_split_bucket : RoutingConfig → RoutingBucket → Bool
should_split_bucket config b =
    leb config.max_bucket_size (length b.nodes) && config.enable_bucket_splitting

unfoldable pub should_merge_bucket : RoutingConfig → RoutingBucket → Bool
should_merge_bucket config b =
    ltb (length b.nodes) config.min_bucket_size && config.enable_bucket_merging

-- bucket_index == index.
unfoldable pub belongs_to : ℤ → DhtNode → Bool
belongs_to index n = elim (ℤ_discrete n.bucket_index index) [ yes _ ↦ true | no _ ↦ false ]

-- createBucket puts a new bucket in the place of one that has the index already.
unfoldable pub split_bucket : ℕ → RoutingBucket → RoutingTable → RoutingTable
split_bucket now b t =
    let index = b.bucket_index +ℤ pos 1 in
    let moves = node_passes (belongs_to index) t.store in
    let created = create_bucket now index index t in
    if should_split_bucket t.config b
    then record created {
      routing_buckets =
          insert b.bucket_index
            (record b {
              nodes = select (λ r. not (moves r)) b.nodes;
              status = split;
              last_split = now;
            })
            (elim (lookup index created.routing_buckets) [
              | none ↦ created.routing_buckets
              | some fresh ↦
                  insert index (record fresh { nodes = select moves b.nodes })
                    created.routing_buckets
            ]);
    }
    else t

unfoldable pub force_bucket_split : ℕ → ℤ → RoutingTable → RoutingTable × Bool
force_bucket_split now bucket_index t = elim (lookup bucket_index t.routing_buckets) [
  | none ↦ (t, false)
  | some b ↦ (split_bucket now b t, true)
]

-- The loop over the nodes of a merged bucket.
unfoldable pub move_to : ℤ → List Ref → RoutingTable → RoutingTable
move_to index [] t = t
move_to index (r ∷ rs) t =
    move_to index rs (modify_node (λ n. record n { bucket_index = index }) r t)

unfoldable pub merge_bucket : ℕ → RoutingBucket → RoutingTable → RoutingTable
merge_bucket now b t =
    let index = b.bucket_index -ℤ pos 1 in
    if should_merge_bucket t.config b
    then elim (lookup index t.routing_buckets) [
      | none ↦ t
      | some parent ↦
          let moved = move_to index b.nodes t in
          record moved {
            routing_buckets =
                insert index
                  (record parent {
                    nodes = parent.nodes ++ b.nodes;
                    status = merged;
                    last_merge = now;
                  })
                  (erase b.bucket_index t.routing_buckets);
          }
    ]
    else t

unfoldable pub force_bucket_merge : ℕ → ℤ → RoutingTable → RoutingTable × Bool
force_bucket_merge now bucket_index t = elim (lookup bucket_index t.routing_buckets) [
  | none ↦ (t, false)
  | some b ↦ (merge_bucket now b t, true)
]

unfoldable pub holds : Ref → List Ref → Bool
holds r [] = false
holds r (s ∷ rs) = let rest = holds r rs in if s.address == r.address then true else rest

-- The test that validateRoutingTableIntegrity makes of a node.
unfoldable pub is_in_bucket : RoutingTable → Ref → Bool
is_in_bucket t r = elim (lookup r.address t.store) [
  | none ↦ true
  | some n ↦
      if ltb_ℤ n.bucket_index (pos 0)
      then true
      else elim (lookup n.bucket_index t.routing_buckets) [ none ↦ true | some b ↦ holds r b.nodes ]
]

unfoldable pub all_in_buckets : RoutingTable → StdMap Bytes Ref → Bool
all_in_buckets t [] = true
all_in_buckets t ((id, r) ∷ m) = is_in_bucket t r && all_in_buckets t m

unfoldable pub validate_routing_table_integrity : RoutingTable → Bool
validate_routing_table_integrity t = all_in_buckets t t.node_registry

-- The two parts of repairRoutingTable. Whether getRoutingEfficiency() < 0.5 is an argument.
unfoldable pub rebuild : ℕ → RoutingTable → RoutingTable × ℕ
rebuild now t =
    if validate_routing_table_integrity t then (t, 0) else (clear_routing_table now t, 1)

unfoldable pub repair_routing_table : ℕ → Bool → RoutingTable → RoutingTable × ℕ
repair_routing_table now is_inefficient t =
    let (rebuilt, count) = rebuild now t in
    if is_inefficient
    then ((clear_expired_nodes now rebuilt).0, count + (clear_expired_nodes now rebuilt).1)
    else (rebuilt, count)
