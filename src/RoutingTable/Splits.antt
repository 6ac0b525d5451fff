-- ===== src/RoutingTable/Splits.antt =====
-- Forced splits and merges leave the buckets without a node that is not at distance 0.
use dht_crawler.Base.{
  ℕ, ◌<ℤ◌, ◌+ℤ◌, ◌-ℤ◌, ◌≡◌, refl, ◌∙◌, ℤ, pos, negsuc, int_key, inl, inr, List, [], ◌∷◌, ◌++◌, none,
  some, Option-cases, Bool-cases, not, Bytes, bytes_key, lookup, insert, erase, lookup-insert,
  lookup-erase, Values-lookup, Values-insert, Values-erase, All, All-append, select, ltb, arith,
}
use dht_crawler.RoutingTable.{Ref, RoutingBucket, RoutingTable, split, merged, create_bucket}
use dht_crawler.RoutingTable.Upkeep.{
  node_passes, belongs_to, should_split_bucket, split_bucket, force_bucket_split, move_to,
  should_merge_bucket, merge_bucket, force_bucket_merge,
}
use dht_crawler.RoutingTable.Buckets.{
  Call, splits, AtZero, Holding, IsStarved, IsStarved-frame, put-IsStarved, All-select,
  insert-IsIndexed, erase-IsIndexed,
}
use dht_crawler.RoutingTable.Starvation.{modify_node_frame}

-- A forced split is of a bucket below 23, so the new bucket is below 24.
abbrev pub Below : Call → Type 0
Below (splits i) = i <ℤ pos 23
Below _ = Unit

insert-IsStarved :
    (our : Bytes) (i : ℤ) (b : RoutingBucket) (t : RoutingTable)
    → i <ℤ pos 24
    → Holding our b
    → b.bucket_index ≡ i
    → IsStarved our t
    → IsStarved our (record t { routing_buckets = insert i b t.routing_buckets })
insert-IsStarved our i b t h near same v = record {
  ours = v.ours;
  few = λ k le. ground (arith, lookup-insert i (pos k) b t.routing_buckets, v.few k le, h);
  near = Values-insert (Holding our) i b t.routing_buckets near v.near;
  indexed = insert-IsIndexed i b t.routing_buckets same v.indexed;
}

erase-IsStarved :
    (our : Bytes) (i : ℤ) (t : RoutingTable)
    → IsStarved our t
    → IsStarved our (record t { routing_buckets = erase i t.routing_buckets })
erase-IsStarved our i t v = record {
  ours = v.ours;
  few = λ k le. ground (arith, lookup-erase i (pos k) t.routing_buckets, v.few k le);
  near = Values-erase (Holding our) i t.routing_buckets v.near;
  indexed = erase-IsIndexed i t.routing_buckets v.indexed;
}

found_below :
    (our : Bytes) (i : ℤ) (b : RoutingBucket) (t : RoutingTable)
    → lookup i t.routing_buckets ≡ some b
    → IsStarved our t
    → i <ℤ pos 24
found_below our (negsuc n) b t e v = omega arith
found_below our (pos n) b t e v = elim (Bool-cases (ltb n 24)) [
  | inl below ↦ ground (arith, below)
  | inr above ↦ absurd (ground (arith, above, e, v.few n (ground (arith, above))))
]

pub create_bucket-IsStarved :
    (our : Bytes) (now : ℕ) (i : ℤ) (t : RoutingTable)
    → i <ℤ pos 24
    → IsStarved our t
    → IsStarved our (create_bucket now i i t)
unfolding create_bucket
create_bucket-IsStarved our now i t h v = insert-IsStarved our i _ t h tt refl v

-- The nodes of a bucket replaced, where there is one.
placed-IsStarved :
    (our : Bytes) (index : ℤ) (nodes : List Ref) (t : RoutingTable)
    → All (AtZero our) nodes
    → IsStarved our t
    → IsStarved our (record t {
      routing_buckets = elim (lookup index t.routing_buckets) [
        | none ↦ t.routing_buckets
        | some fresh ↦ insert index (record fresh { nodes = nodes }) t.routing_buckets
      ];
    })
placed-IsStarved our index nodes t near v = elim (Option-cases (lookup index t.routing_buckets)) [
  | inl e ↦ rw e v
  | inr (fresh, e) ↦ rw e (
      put-IsStarved our index fresh (record fresh { nodes = nodes }) t e near
        (v.indexed index fresh e) v)
]

next_below : (i : ℤ) → i <ℤ pos 23 → i +ℤ pos 1 <ℤ pos 24
next_below (pos n) h = ground arith
next_below (negsuc n) h = ground arith

split-IsStarved :
    (our : Bytes) (now : ℕ) (b : RoutingBucket) (t : RoutingTable)
    → b.bucket_index <ℤ pos 23
    → Holding our b
    → IsStarved our t
    → IsStarved our (split_bucket now b t)
unfolding split_bucket
split-IsStarved our now b t h near v = elim (Bool-cases (should_split_bucket t.config b)) [
  | inr few ↦ rw (few, split_bucket) v
  | inl ready ↦
      let index = b.bucket_index +ℤ pos 1 in
      let moves = node_passes (belongs_to index) t.store in
      let created = create_bucket-IsStarved our now index t (next_below b.bucket_index h) v in
      let placed =
        placed-IsStarved our index (select moves b.nodes) (create_bucket now index index t)
          (All-select (AtZero our) moves b.nodes near) created in
      rw (ready, split_bucket)
        (insert-IsStarved our b.bucket_index
          (record b {
            nodes = select (λ r. not (moves r)) b.nodes;
            status = split;
            last_split = now;
          })
          _ (omega (arith, h)) (All-select (AtZero our) (λ r. not (moves r)) b.nodes near) refl
          placed)
]

pub force_split-IsStarved :
    (our : Bytes) (now : ℕ) (i : ℤ) (t : RoutingTable)
    → i <ℤ pos 23
    → IsStarved our t
    → IsStarved our (force_bucket_split now i t).0
unfolding force_bucket_split
force_split-IsStarved our now i t h v = elim (Option-cases (lookup i t.routing_buckets)) [
  | inl e ↦ rw (e, force_bucket_split) v
  | inr (b, e) ↦
      rw (e, force_bucket_split)
        (split-IsStarved our now b t (rw (v.indexed i b e) h)
          (Values-lookup (Holding our) i b t.routing_buckets v.near e) v)
]

move_to_ours :
    (i : ℤ) (rs : List Ref) (t : RoutingTable) → (move_to i rs t).our_node_id ≡ t.our_node_id
unfolding move_to
move_to_ours i [] t = refl
move_to_ours i (r ∷ rs) t = move_to_ours i rs _ ∙ (modify_node_frame _ r t).0

merge-IsStarved :
    (our : Bytes) (now : ℕ) (b : RoutingBucket) (t : RoutingTable)
    → Holding our b
    → IsStarved our t
    → IsStarved our (merge_bucket now b t)
unfolding merge_bucket
merge-IsStarved our now b t near v =
    let index = b.bucket_index -ℤ pos 1 in
    elim (Bool-cases (should_merge_bucket t.config b)) [
      | inr few ↦ rw (few, merge_bucket) v
      | inl ready ↦ elim (Option-cases (lookup index t.routing_buckets)) [
        | inl e ↦ rw (ready, e, merge_bucket) v
        | inr (parent, e) ↦
            let old = Values-lookup (Holding our) index parent t.routing_buckets v.near e in
            let both = All-append (AtZero our) parent.nodes b.nodes old near in
            let put =
              insert-IsStarved our index
                (record parent {
                  nodes = parent.nodes ++ b.nodes;
                  status = merged;
                  last_merge = now;
                })
                (record t { routing_buckets = erase b.bucket_index t.routing_buckets })
                (found_below our index parent t e v) both (v.indexed index parent e)
                (erase-IsStarved our b.bucket_index t v) in
            rw (ready, e, merge_bucket)
              (IsStarved-frame our _ _ (move_to_ours index b.nodes t) refl put)
      ]
    ]

pub force_merge-IsStarved :
    (our : Bytes) (now : ℕ) (i : ℤ) (t : RoutingTable)
    → IsStarved our t
    → IsStarved our (force_bucket_merge now i t).0
unfolding force_bucket_merge
force_merge-IsStarved our now i t v = elim (Option-cases (lookup i t.routing_buckets)) [
  | inl e ↦ rw (e, force_bucket_merge) v
  | inr (b, e) ↦
      rw (e, force_bucket_merge)
        (merge-IsStarved our now b t (Values-lookup (Holding our) i b t.routing_buckets v.near e) v)
]
