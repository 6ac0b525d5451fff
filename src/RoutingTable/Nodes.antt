-- ===== src/RoutingTable/Nodes.antt =====
-- The calls that add, remove, update and look up nodes, of src/routing_table_manager.cpp.
use dht_crawler.Base.{
  ℕ, ◌+◌, ◌*◌, ℤ, pos, negsuc, int_key, nat_key, ltb_ℤ, leb_ℤ, List, [], ◌∷◌, ◌++◌, Option, none,
  some, Bool, true, false, not, ◌&&◌, Bytes, bytes_key, StdMap, lookup, insert, erase, length,
  select, take, ltb, ◌==◌, if◌then◌else◌,
}
use dht_crawler.RoutingTable.{
  NodeStatus, good, unknown, bad, evicted, RoutingConfig, DhtNode, Ref, RoutingTable,
  calculate_xor_distance, calculate_bucket_index, calculate_bucket_distance, is_node_closer,
}

unfoldable pub is_valid_node_id : Bytes → Bool
is_valid_node_id node_id = length node_id == 20

-- find('.') != npos.
unfoldable pub has_dot : Bytes → Bool
has_dot [] = false
has_dot (c ∷ cs) = let rest = has_dot cs in if c == b'.' then true else rest

unfoldable pub is_valid_ip_address : Bytes → Bool
is_valid_ip_address ip_address = not (length ip_address == 0) && has_dot ip_address

unfoldable pub is_valid_port : ℤ → Bool
is_valid_port port = ltb_ℤ (pos 0) port && leb_ℤ port (pos 65535)

abbrev pub milliseconds : ℕ → ℕ
milliseconds n = n * 1_000_000

unfoldable pub determine_node_status : RoutingConfig → DhtNode → NodeStatus
determine_node_status config n =
    if config.reaches_good n.quality_score
    then good
    else if config.reaches_bad n.quality_score
    then bad
    else unknown

-- The first part of updateNodeQuality.
unfoldable pub count_ping : Bool → ℤ → DhtNode → DhtNode
count_ping true response_time n = record n {
  successful_pings = n.successful_pings + 1;
  avg_response_time = response_time;
  min_response_time =
      if ltb_ℤ response_time n.min_response_time then response_time else n.min_response_time;
  max_response_time =
      if ltb_ℤ n.max_response_time response_time then response_time else n.max_response_time;
  ping_attempts = n.ping_attempts + 1;
}
count_ping false response_time n = record n {
  failed_pings = n.failed_pings + 1;
  ping_attempts = n.ping_attempts + 1;
}

unfoldable pub update_node_quality : RoutingConfig → Bool → ℤ → DhtNode → DhtNode
update_node_quality config success response_time n =
    let counted = count_ping success response_time n in
    let scored = record counted {
      quality_score = (counted.successful_pings, counted.ping_attempts);
    } in
    record scored { status = determine_node_status config scored }

-- The change of the node behind a pointer.
unfoldable pub modify_node : (DhtNode → DhtNode) → Ref → RoutingTable → RoutingTable
modify_node change r t = elim (lookup r.address t.store) [
  | none ↦ t
  | some n ↦ record t { store = insert r.address (change n) t.store }
]

-- The pointer into the bucket of that index, if there is one.
unfoldable pub link : ℕ → Ref → ℤ → RoutingTable → RoutingTable
link now r index t = if ltb_ℤ index (pos 0) then t else elim (lookup index t.routing_buckets) [
  | none ↦ t
  | some b ↦ record t {
    routing_buckets =
        insert index (record b { nodes = b.nodes ++ r ∷ []; last_updated = now }) t.routing_buckets;
  }
]

-- erase(std::remove(...)) of the pointer.
unfoldable pub without : Ref → List Ref → List Ref
without r rs = select (λ s. not (s.address == r.address)) rs

unfoldable pub unlink : Ref → ℤ → RoutingTable → RoutingTable
unlink r index t = if ltb_ℤ index (pos 0) then t else elim (lookup index t.routing_buckets) [
  | none ↦ t
  | some b ↦ record t {
    routing_buckets = insert index (record b { nodes = without r b.nodes }) t.routing_buckets;
  }
]

unfoldable pub new_node : ℕ → Bytes → Bytes → ℤ → Bytes → DhtNode
new_node now node_id ip_address port our_node_id = record {
  node_id = node_id;
  ip_address = ip_address;
  port = port;
  status = unknown;
  last_seen = now;
  last_ping = now;
  last_response = now;
  distance = calculate_xor_distance our_node_id node_id;
  bucket_index = calculate_bucket_index our_node_id node_id;
  bucket_distance = calculate_bucket_distance our_node_id node_id;
  quality_score = (1, 2);
  ping_attempts = 0;
  successful_pings = 0;
  failed_pings = 0;
  avg_response_time = pos 0;
  min_response_time = pos 0;
  max_response_time = pos 0;
  total_queries = 0;
  successful_queries = 0;
  failed_queries = 0;
  is_evictable = true;
  eviction_time = now;
  eviction_attempts = 0;
}

-- make_shared of a node, and its entry in the registry.
unfoldable pub register_node : DhtNode → RoutingTable → RoutingTable
register_node n t = record t {
  store = insert t.next_address n t.store;
  next_address = t.next_address + 1;
  node_registry =
      insert n.node_id (record { address = t.next_address; node_id = n.node_id }) t.node_registry;
}

unfoldable pub add_node : ℕ → Bytes → Bytes → ℤ → RoutingTable → RoutingTable × Bool
add_node now node_id ip_address port t =
    if is_valid_node_id node_id && is_valid_ip_address ip_address && is_valid_port port
    then elim (lookup node_id t.node_registry) [
      | some _ ↦ (t, false)
      | none ↦
          let n = new_node now node_id ip_address port t.our_node_id in
          (
            link now (record { address = t.next_address; node_id = node_id }) n.bucket_index
                (register_node n t),
            true,
          )
    ]
    else (t, false)

-- The change of a node that is looked up in the registry, as several calls make it.
unfoldable pub change_node : (DhtNode → DhtNode) → Bytes → RoutingTable → RoutingTable × Bool
change_node change node_id t = elim (lookup node_id t.node_registry) [
  | none ↦ (t, false)
  | some r ↦ (modify_node change r t, true)
]

unfoldable pub add_node_with_quality :
    ℕ → Bytes → Bytes → ℤ → ℕ × ℕ → ℤ → RoutingTable → RoutingTable × Bool
add_node_with_quality now node_id ip_address port quality_score response_time t =
    let (added, is_new) = add_node now node_id ip_address port t in
    if is_new
    then (
      (change_node
          (λ n. update_node_quality t.config true response_time (record n {
            quality_score = quality_score;
            avg_response_time = response_time;
            min_response_time = response_time;
            max_response_time = response_time;
          }))
          node_id added).0,
      true,
    )
    else (added, false)

unfoldable pub remove_node : Bytes → RoutingTable → RoutingTable × Bool
remove_node node_id t = elim (lookup node_id t.node_registry) [
  | none ↦ (t, false)
  | some r ↦ elim (lookup r.address t.store) [
    | none ↦ (t, false)
    | some n ↦
        let unlinked = unlink r n.bucket_index t in
        (record unlinked { node_registry = erase node_id unlinked.node_registry }, true)
  ]
]

unfoldable pub update_node : ℕ → Bytes → Bool → ℤ → RoutingTable → RoutingTable × Bool
update_node now node_id success response_time t =
    change_node
      (λ n. update_node_quality t.config success response_time (
        if success
        then record n {
          last_seen = now;
          last_response = now;
          successful_queries = n.successful_queries + 1;
          total_queries = n.total_queries + 1;
        }
        else record n {
          last_seen = now;
          failed_queries = n.failed_queries + 1;
          total_queries = n.total_queries + 1;
        }))
      node_id t

unfoldable pub update_node_status : Bytes → NodeStatus → RoutingTable → RoutingTable × Bool
update_node_status node_id status t = change_node (λ n. record n { status = status }) node_id t

-- evictNode.
unfoldable pub evict_node : ℕ → Ref → DhtNode → RoutingTable → RoutingTable
evict_node now r n t =
    let changed =
      modify_node
        (λ n. record n {
          status = evicted;
          eviction_time = now;
          eviction_attempts = n.eviction_attempts + 1;
        })
        r t in
    let unlinked = unlink r n.bucket_index changed in
    record unlinked { node_registry = erase n.node_id unlinked.node_registry }

unfoldable pub force_node_eviction : ℕ → Bytes → RoutingTable → RoutingTable × Bool
force_node_eviction now node_id t = elim (lookup node_id t.node_registry) [
  | none ↦ (t, false)
  | some r ↦ elim (lookup r.address t.store) [
    | none ↦ (t, false)
    | some n ↦ (evict_node now r n t, true)
  ]
]

unfoldable pub get_nodes_in_bucket : ℤ → RoutingTable → List Ref
get_nodes_in_bucket bucket_index t = elim (lookup bucket_index t.routing_buckets) [
  | none ↦ []
  | some b ↦ b.nodes
]

unfoldable pub has_node : Bytes → RoutingTable → Bool
has_node node_id t = elim (lookup node_id t.node_registry) [ none ↦ false | some _ ↦ true ]

unfoldable pub get_node : Bytes → RoutingTable → Option DhtNode
get_node node_id t = elim (lookup node_id t.node_registry) [
  | none ↦ none
  | some r ↦ lookup r.address t.store
]

unfoldable pub get_node_status : Bytes → RoutingTable → NodeStatus
get_node_status node_id t = elim (get_node node_id t) [ none ↦ unknown | some n ↦ n.status ]

-- The pointers of the registry, in the order of the ids.
unfoldable pub all_nodes : StdMap Bytes Ref → List Ref
all_nodes [] = []
all_nodes ((id, r) ∷ m) = r ∷ all_nodes m

-- std::sort by isNodeCloser, as an insertion sort: the ids of the registry differ.
unfoldable pub insert_closer : Bytes → Ref → List Ref → List Ref
insert_closer our r [] = r ∷ []
insert_closer our r (s ∷ rs) =
    let rest = insert_closer our r rs in
    if is_node_closer our s.node_id r.node_id then s ∷ rest else r ∷ s ∷ rs

unfoldable pub sort_closer : Bytes → List Ref → List Ref
sort_closer our [] = []
sort_closer our (r ∷ rs) = insert_closer our r (sort_closer our rs)

-- The target is not used.
unfoldable pub get_closest_nodes : Bytes → ℤ → RoutingTable → List Ref
get_closest_nodes target_id count t =
    let sorted = sort_closer t.our_node_id (all_nodes t.node_registry) in
    elim count [
      | pos n ↦ if ltb 0 n && ltb n (length sorted) then take n sorted else sorted
      | negsuc n ↦ sorted
    ]
