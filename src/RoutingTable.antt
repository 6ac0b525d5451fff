-- ===== src/RoutingTable.antt =====
-- RoutingTableManager of src/routing_table_manager.cpp, with the types of its header: the known nodes
-- by id, and buckets of nodes by distance. Both hold pointers to the same nodes: a Ref is the address
-- of a node in the store, with the id that the node has had since it was made, and two pointers are
-- equal when their addresses are. An instant is a number of nanoseconds on the steady clock, and the
-- readings of the clock in one call are one instant. A quality score is the pair of a dividend and a
-- divisor, and its comparisons with the thresholds are functions of the configuration. A char is
-- signed. The statistics, and the counters of a bucket, which nothing changes, are left out.

pub mod Nodes
pub mod Upkeep
pub mod Distance
pub mod Buckets
pub mod Starvation
pub mod Splits
pub mod Membership
use dht_crawler.Base.{
  ℕ, zero, suc, ◌+◌, ◌-◌, ◌*◌, ◌/◌, ◌%◌, ◌^◌, ◌<◌, ℤ, pos, negsuc, int_key, nat_key, ltb_ℤ, List,
  [], ◌∷◌, Option, none, some, Bool, true, false, Bytes, bytes_key, StdMap, lookup, insert, erase,
  length, ltb, leb, ◌==◌, if◌then◌else◌,
}
use dht_crawler.MonitorThread.{MonitorThread, started, start_thread, stop_thread, thread_is_running}

pub data NodeStatus : Type 0 where
  good unknown bad questionable evicted : NodeStatus

pub data BucketStatus : Type 0 where
  active inactive full split merged : BucketStatus

pub record RoutingConfig : Type 0 where
  pub max_bucket_size : ℕ
  pub min_bucket_size : ℕ
  pub node_timeout : ℕ
  pub enable_bucket_splitting : Bool
  pub enable_bucket_merging : Bool
  -- quality_score >= good_threshold, and <= bad_threshold.
  pub reaches_good : ℕ × ℕ → Bool
  pub reaches_bad : ℕ × ℕ → Bool

pub record DhtNode : Type 0 where
  pub node_id : Bytes
  pub ip_address : Bytes
  pub port : ℤ
  pub status : NodeStatus
  pub last_seen : ℕ
  pub last_ping : ℕ
  pub last_response : ℕ
  pub distance : Bytes
  pub bucket_index : ℤ
  pub bucket_distance : ℤ
  pub quality_score : ℕ × ℕ
  pub ping_attempts : ℕ
  pub successful_pings : ℕ
  pub failed_pings : ℕ
  pub avg_response_time : ℤ
  pub min_response_time : ℤ
  pub max_response_time : ℤ
  pub total_queries : ℕ
  pub successful_queries : ℕ
  pub failed_queries : ℕ
  pub is_evictable : Bool
  pub eviction_time : ℕ
  pub eviction_attempts : ℕ

-- A pointer to a node.
pub record Ref : Type 0 where
  pub address : ℕ
  pub node_id : Bytes

pub record RoutingBucket : Type 0 where
  pub bucket_index : ℤ
  pub bucket_distance : ℤ
  pub status : BucketStatus
  pub nodes : List Ref
  pub last_updated : ℕ
  pub last_split : ℕ
  pub last_merge : ℕ

pub record RoutingTable : Type 0 where
  pub config : RoutingConfig
  pub our_node_id : Bytes
  pub routing_buckets : StdMap ℤ RoutingBucket
  pub node_registry : StdMap Bytes Ref
  pub store : StdMap ℕ DhtNode
  pub next_address : ℕ
  pub monitor : MonitorThread

-- The exclusive or of the lowest w bits.
unfoldable pub bit_xor : ℕ → ℕ → ℕ → ℕ
bit_xor zero a b = 0
bit_xor (suc w) a b =
    let low = bit_xor w a b in if a / 2 ^ w % 2 == b / 2 ^ w % 2 then low else 2 ^ w + low

-- The loop of calculateXORDistance.
unfoldable pub xor_bytes : Bytes → Bytes → Bytes
xor_bytes [] bs = []
xor_bytes (a ∷ xs) [] = []
xor_bytes (a ∷ xs) (b ∷ ys) = bit_xor 8 a b ∷ xor_bytes xs ys

unfoldable pub calculate_xor_distance : Bytes → Bytes → Bytes
calculate_xor_distance node_id1 node_id2 =
    if length node_id1 == length node_id2 then xor_bytes node_id1 node_id2 else []

-- The leading zeros of a number of w bits.
unfoldable pub count_leading_zeros : ℕ → ℕ → ℕ
count_leading_zeros zero x = 0
count_leading_zeros (suc w) x =
    let rest = count_leading_zeros w x in if leb (2 ^ w) x then 0 else 1 + rest

-- The loop of calculateBucketIndex from byte i. __builtin_clz counts in the 32 bits of an unsigned
-- int, to which the unsigned char is promoted.
unfoldable pub first_nonzero : ℕ → Bytes → ℤ
first_nonzero i [] = pos 0
first_nonzero i (d ∷ ds) =
    let rest = first_nonzero (i + 1) ds in
    if d == 0 then rest else pos (i * 8 + count_leading_zeros 32 d)

unfoldable pub calculate_bucket_index : Bytes → Bytes → ℤ
calculate_bucket_index our_node_id node_id = elim (calculate_xor_distance our_node_id node_id) [
  | [] ↦ negsuc 0
  | d ∷ ds ↦ first_nonzero 0 (d ∷ ds)
]

-- A number below 2 ^ 32 as an int.
unfoldable pub to_signed : ℕ → ℤ
to_signed n = if ltb n (2 ^ 31) then pos n else negsuc (2 ^ 32 - 1 - n)

-- dist = (dist << 8) | byte, in 32 bits.
unfoldable pub shift_in : ℕ → Bytes → ℕ
shift_in dist [] = dist
shift_in dist (d ∷ ds) = shift_in ((dist * 256 + d) % 2 ^ 32) ds

unfoldable pub calculate_bucket_distance : Bytes → Bytes → ℤ
calculate_bucket_distance our_node_id node_id = elim (calculate_xor_distance our_node_id node_id) [
  | [] ↦ negsuc 0
  | d ∷ ds ↦ to_signed (shift_in 0 (d ∷ ds))
]

-- A byte as a signed char.
unfoldable pub to_char : ℕ → ℤ
to_char c = if ltb c 128 then pos c else negsuc (255 - c)

-- The loop of isNodeCloser.
unfoldable pub less_distance : Bytes → Bytes → Bool
less_distance [] es = false
less_distance (d ∷ ds) [] = false
less_distance (d ∷ ds) (e ∷ es) =
    let rest = less_distance ds es in
    if ltb_ℤ (to_char d) (to_char e)
    then true
    else if ltb_ℤ (to_char e) (to_char d)
    then false
    else rest

unfoldable pub is_node_closer : Bytes → Bytes → Bytes → Bool
is_node_closer our_node_id node_id1 node_id2 = elim (calculate_xor_distance our_node_id node_id1) [
  | [] ↦ false
  | d ∷ ds ↦ elim (calculate_xor_distance our_node_id node_id2) [
    | [] ↦ false
    | e ∷ es ↦ less_distance (d ∷ ds) (e ∷ es)
  ]
]

unfoldable pub create_bucket : ℕ → ℤ → ℤ → RoutingTable → RoutingTable
create_bucket now bucket_index bucket_distance t = record t {
  routing_buckets =
      insert bucket_index
        (record {
          bucket_index = bucket_index;
          bucket_distance = bucket_distance;
          status = active;
          nodes = [];
          last_updated = now;
          last_split = now;
          last_merge = now;
        })
        t.routing_buckets;
}

-- The buckets from i on, n of them.
unfoldable pub create_buckets : ℕ → ℕ → ℕ → RoutingTable → RoutingTable
create_buckets now zero i t = t
create_buckets now (suc n) i t = create_buckets now n (i + 1) (create_bucket now (pos i) (pos i) t)

unfoldable pub initialize_routing_buckets : ℕ → RoutingTable → RoutingTable
initialize_routing_buckets now t = create_buckets now 8 0 t

unfoldable pub init : ℕ → Bytes → RoutingConfig → RoutingTable
init now our_node_id config = initialize_routing_buckets now (record {
  config = config;
  our_node_id = our_node_id;
  routing_buckets = [];
  node_registry = [];
  store = [];
  next_address = 0;
  monitor = started;
})

unfoldable pub update_config : RoutingConfig → RoutingTable → RoutingTable
update_config config t = record t { config = config }

unfoldable pub start : RoutingTable → RoutingTable
start t = record t { monitor = start_thread t.monitor }

unfoldable pub stop : RoutingTable → RoutingTable
stop t = record t { monitor = stop_thread t.monitor }

unfoldable pub is_running : RoutingTable → Bool
is_running t = thread_is_running t.monitor
