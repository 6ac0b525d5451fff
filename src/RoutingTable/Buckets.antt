-- ===== src/RoutingTable/Buckets.antt =====
-- What the buckets hold over the histories of a routing table.
use dht_crawler.Base.{
  ℕ, ◌+◌, ◌*◌, ◌≤◌, ◌≡◌, refl, ℤ, pos, negsuc, int_key, inl, inr, ◌⊎◌, List, [], ◌∷◌, ◌++◌, none,
  some, Option-cases, Bool, true, false, not, Bytes, bytes_key, lookup, insert, erase, StdMap,
  lookup-insert, lookup-erase, Values, Values-lookup, Values-insert, All, All-append, select,
  Bool-cases, ltb_ℤ, ℤ_discrete, ◌∙◌, length, ◌==◌, if◌then◌else◌, arith, ℕ_discrete,
}
use dht_crawler.RoutingTable.{
  NodeStatus, RoutingConfig, DhtNode, Ref, RoutingBucket, RoutingTable, bit_xor, xor_bytes,
  calculate_xor_distance, first_nonzero, calculate_bucket_index, create_bucket, update_config,
  create_buckets, initialize_routing_buckets, init,
}
use dht_crawler.RoutingTable.Distance.{zeros_of_byte}
use dht_crawler.RoutingTable.Nodes.{
  link, without, unlink, add_node, add_node_with_quality, remove_node, update_node,
  update_node_status, force_node_eviction,
}
use dht_crawler.RoutingTable.Upkeep.{
  cleanup_expired_nodes, clear_expired_nodes, clear_routing_table, optimize_routing_table,
  repair_routing_table, force_bucket_split, force_bucket_merge,
}

-- The calls that change the nodes, the buckets or the configuration, the monitor's cleanup among them.
-- monitorRoutingTable is left out: its merges are undefined (Upkeep).
pub data Call : Type 0 where
  adds : Bytes → Bytes → ℤ → Call
  adds_with_quality : Bytes → Bytes → ℤ → ℕ × ℕ → ℤ → Call
  removes evicts : Bytes → Call
  updates : Bytes → Bool → ℤ → Call
  sets_status : Bytes → NodeStatus → Call
  cleans_up clears_expired clears optimizes : Call
  repairs : Bool → Call
  splits merges : ℤ → Call
  configures : RoutingConfig → Call

unfoldable pub call : ℕ → Call → RoutingTable → RoutingTable
call now (adds id ip port) t = (add_node now id ip port t).0
call now (adds_with_quality id ip port q rt) t = (add_node_with_quality now id ip port q rt t).0
call now (removes id) t = (remove_node id t).0
call now (evicts id) t = (force_node_eviction now id t).0
call now (updates id success rt) t = (update_node now id success rt t).0
call now (sets_status id status) t = (update_node_status id status t).0
call now cleans_up t = cleanup_expired_nodes now t
call now clears_expired t = (clear_expired_nodes now t).0
call now clears t = clear_routing_table now t
call now optimizes t = optimize_routing_table t
call now (repairs low) t = (repair_routing_table now low t).0
call now (splits i) t = (force_bucket_split now i t).0
call now (merges i) t = (force_bucket_merge now i t).0
call now (configures config) t = update_config config t

unfoldable pub run : List (ℕ × Call) → RoutingTable → RoutingTable
run [] t = t
run ((now, c) ∷ cs) t = run cs (call now c t)

-- A node at distance 0 of our id.
abbrev pub AtZero : Bytes → Ref → Type 0
AtZero our r = All (λ d. d ≡ 0) (calculate_xor_distance our r.node_id)

abbrev pub Holding : Bytes → RoutingBucket → Type 0
Holding our b = All (AtZero our) b.nodes

-- Every bucket has the index of its place.
abbrev pub IsIndexed : StdMap ℤ RoutingBucket → Type 0
IsIndexed m = (k : ℤ) (b : RoutingBucket) → lookup k m ≡ some b → b.bucket_index ≡ k

pub insert-IsIndexed :
    (i : ℤ) (b : RoutingBucket) (m : StdMap ℤ RoutingBucket)
    → b.bucket_index ≡ i
    → IsIndexed m
    → IsIndexed (insert i b m)
insert-IsIndexed i b m h v k c e = by_key (ℤ_discrete i k)
  where
    by_key : Dec (i ≡ k) → c.bucket_index ≡ k
    by_key (yes p) = ground (arith, lookup-insert i k b m, e, p, h)
    by_key (no n) = v k c (ground (arith, lookup-insert i k b m, e, n))

pub erase-IsIndexed : (i : ℤ) (m : StdMap ℤ RoutingBucket) → IsIndexed m → IsIndexed (erase i m)
erase-IsIndexed i m v k c e = by_key (ℤ_discrete i k)
  where
    by_key : Dec (i ≡ k) → c.bucket_index ≡ k
    by_key (yes p) = absurd (ground (arith, lookup-erase i k m, e, p))
    by_key (no n) = v k c (ground (arith, lookup-erase i k m, e, n))

-- No bucket has an index of 24 or above, and the buckets hold nodes at distance 0 only.
pub record IsStarved (our : Bytes) (t : RoutingTable) : Type 0 where
  pub ours : t.our_node_id ≡ our
  pub few : (k : ℕ) → 24 ≤ k → lookup (pos k) t.routing_buckets ≡ none
  pub near : Values (Holding our) t.routing_buckets
  pub indexed : IsIndexed t.routing_buckets

-- An index is -1, or 0 at distance 0, or at least 24.
first_nonzero_cases :
    (i : ℕ) (xs ys : Bytes)
    → All (λ d. d ≡ 0) (xor_bytes xs ys)
      ⊎ ((k : ℕ) × (24 ≤ k) × (first_nonzero i (xor_bytes xs ys) ≡ pos k))
unfolding first_nonzero xor_bytes
first_nonzero_cases i [] ys = inl tt
first_nonzero_cases i (a ∷ xs) [] = inl tt
first_nonzero_cases i (a ∷ xs) (b ∷ ys) =
    by_dec (ℕ_discrete (bit_xor 8 a b) 0) (first_nonzero_cases (i + 1) xs ys)
  where
    by_dec :
        Dec (bit_xor 8 a b ≡ 0)
        → All (λ d. d ≡ 0) (xor_bytes xs ys)
          ⊎ ((k : ℕ) × (24 ≤ k) × (first_nonzero (i + 1) (xor_bytes xs ys) ≡ pos k))
        → All (λ d. d ≡ 0) (xor_bytes (a ∷ xs) (b ∷ ys))
          ⊎ ((k : ℕ) × (24 ≤ k) × (first_nonzero i (xor_bytes (a ∷ xs) (b ∷ ys)) ≡ pos k))
    by_dec (yes e) (inl zeros) = inl (e, zeros)
    by_dec (yes e) (inr (k, le, index)) = inr (k, le, ground (arith, e, index))
    by_dec (no d) rest = inr (
      i * 8 + (24 + dht_crawler.RoutingTable.Distance.shared_bits 8 a b),
      omega arith,
      ground (arith, d, zeros_of_byte a b),
    )

pub bucket_index_cases :
    (our id : Bytes)
    → (calculate_bucket_index our id ≡ negsuc 0)
      ⊎ (All (λ d. d ≡ 0) (calculate_xor_distance our id)
          ⊎ ((k : ℕ) × (24 ≤ k) × (calculate_bucket_index our id ≡ pos k)))
unfolding calculate_bucket_index calculate_xor_distance
bucket_index_cases our id =
    by_distance (length our == length id) (xor_bytes our id) (first_nonzero_cases 0 our id)
  where
    by_distance :
        (same : Bool) (ds : Bytes)
        → All (λ d. d ≡ 0) ds ⊎ ((k : ℕ) × (24 ≤ k) × (first_nonzero 0 ds ≡ pos k))
        → (elim (if same then ds else []) [ [] ↦ negsuc 0 | d ∷ rest ↦ first_nonzero 0 (d ∷ rest) ]
            ≡ negsuc 0)
          ⊎ (All (λ d. d ≡ 0) (if same then ds else [])
              ⊎ ((k : ℕ) × (24 ≤ k)
                  × (elim (if same then ds else []) [
                    | [] ↦ negsuc 0
                    | d ∷ rest ↦ first_nonzero 0 (d ∷ rest)
                  ]
                      ≡ pos k)))
    by_distance false ds c = inl refl
    by_distance true [] c = inl refl
    by_distance true (d ∷ ds) c = inr c

pub All-select :
    (P : Ref → Type 0) (test : Ref → Bool) (rs : List Ref) → All P rs → All P (select test rs)
All-select P test [] a = tt
All-select P test (r ∷ rs) a = ground (arith, a.0, All-select P test rs a.1)

-- Only our id and the buckets matter.
pub IsStarved-frame :
    (our : Bytes) (t t' : RoutingTable)
    → t'.our_node_id ≡ t.our_node_id
    → t'.routing_buckets ≡ t.routing_buckets
    → IsStarved our t
    → IsStarved our t'
IsStarved-frame our t t' e f v = record {
  ours = e ∙ v.ours;
  few = λ k h. rw f (v.few k h);
  near = rw f v.near;
  indexed = rw f v.indexed;
}

pub put-IsStarved :
    (our : Bytes) (index : ℤ) (b b' : RoutingBucket) (t : RoutingTable)
    → lookup index t.routing_buckets ≡ some b
    → Holding our b'
    → b'.bucket_index ≡ index
    → IsStarved our t
    → IsStarved our (record t { routing_buckets = insert index b' t.routing_buckets })
put-IsStarved our index b b' t found h same v = record {
  ours = v.ours;
  few = λ k le. by_key k (v.few k le) (ℤ_discrete index (pos k));
  near = Values-insert (Holding our) index b' t.routing_buckets h v.near;
  indexed = insert-IsIndexed index b' t.routing_buckets same v.indexed;
}
  where
    by_key :
        (k : ℕ)
        → lookup (pos k) t.routing_buckets ≡ none
        → Dec (index ≡ pos k)
        → lookup (pos k) (insert index b' t.routing_buckets) ≡ none
    by_key k e (yes p) = absurd (ground (arith, found, e, p))
    by_key k e (no n) = ground (arith, lookup-insert index (pos k) b' t.routing_buckets, e, n)

pub link-none :
    (now : ℕ) (r : Ref) (index : ℤ) (t : RoutingTable)
    → lookup index t.routing_buckets ≡ none
    → link now r index t ≡ t
unfolding link
link-none now r index t e = ground (arith, e)

pub link_negative : (now : ℕ) (r : Ref) (t : RoutingTable) → link now r (negsuc 0) t ≡ t
unfolding link
link_negative now r t = refl

pub link-IsStarved :
    (our : Bytes) (now : ℕ) (r : Ref) (index : ℤ) (t : RoutingTable)
    → AtZero our r
    → IsStarved our t
    → IsStarved our (link now r index t)
unfolding link
link-IsStarved our now r index t z v = elim (Option-cases (lookup index t.routing_buckets)) [
  | inl e ↦ rw (link-none now r index t e) v
  | inr (b, e) ↦
      let near = Values-lookup (Holding our) index b t.routing_buckets v.near e in
      let put =
        put-IsStarved our index b (record b { nodes = b.nodes ++ r ∷ []; last_updated = now }) t e
          (All-append (AtZero our) b.nodes (r ∷ []) near (z, tt)) (v.indexed index b e) v in
      elim (Bool-cases (ltb_ℤ index (pos 0))) [
        | inl below ↦ rw (below, link) v
        | inr above ↦ rw (above, e, link) put
      ]
]

pub unlink-IsStarved :
    (our : Bytes) (r : Ref) (index : ℤ) (t : RoutingTable)
    → IsStarved our t
    → IsStarved our (unlink r index t)
unfolding unlink without
unlink-IsStarved our r index t v = elim (Option-cases (lookup index t.routing_buckets)) [
  | inl e ↦ elim (Bool-cases (ltb_ℤ index (pos 0))) [
    | inl below ↦ rw (below, unlink) v
    | inr above ↦ rw (above, e, unlink) v
  ]
  | inr (b, e) ↦
      let near = Values-lookup (Holding our) index b t.routing_buckets v.near e in
      let put =
        put-IsStarved our index b (record b { nodes = without r b.nodes }) t e
          (All-select (AtZero our) (λ s. not (s.address == r.address)) b.nodes near)
          (v.indexed index b e) v in
      elim (Bool-cases (ltb_ℤ index (pos 0))) [
        | inl below ↦ rw (below, unlink) v
        | inr above ↦ rw (above, e, unlink) put
      ]
]
