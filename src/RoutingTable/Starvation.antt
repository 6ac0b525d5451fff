-- ===== src/RoutingTable/Starvation.antt =====
-- The calls on single nodes leave the buckets without a node that is not at distance 0.
use dht_crawler.Base.{
  ℕ, ◌+◌, ◌≡◌, refl, ℤ, pos, int_key, nat_key, sym, subst, ◌&&◌, inl, inr, Option-cases, Bool-cases,
  Bytes, bytes_key, lookup, arith,
}
use dht_crawler.RoutingTable.{DhtNode, Ref, RoutingTable, evicted, calculate_bucket_index}
use dht_crawler.RoutingTable.Nodes.{
  is_valid_node_id, is_valid_ip_address, is_valid_port, modify_node, link, unlink, new_node,
  register_node, add_node, change_node, remove_node, evict_node, force_node_eviction,
}
use dht_crawler.RoutingTable.Buckets.{
  IsStarved, IsStarved-frame, link-IsStarved, link-none, link_negative, unlink-IsStarved,
  bucket_index_cases,
}

link_index-IsStarved :
    (our : Bytes) (now : ℕ) (r : Ref) (t : RoutingTable)
    → IsStarved our t
    → IsStarved our (link now r (calculate_bucket_index our r.node_id) t)
link_index-IsStarved our now r t v = elim (bucket_index_cases our r.node_id) [
  | inl e ↦ rw e (rw (link_negative now r t) v)
  | inr (inl z) ↦ link-IsStarved our now r (calculate_bucket_index our r.node_id) t z v
  | inr (inr (k, le, e)) ↦ rw e (rw (link-none now r (pos k) t (v.few k le)) v)
]

register-IsStarved :
    (our : Bytes) (n : DhtNode) (t : RoutingTable)
    → IsStarved our t
    → IsStarved our (register_node n t)
unfolding register_node
register-IsStarved our n t v = IsStarved-frame our t (register_node n t) refl refl v

pub add_node-IsStarved :
    (our : Bytes) (now : ℕ) (id ip : Bytes) (port : ℤ) (t : RoutingTable)
    → IsStarved our t
    → IsStarved our (add_node now id ip port t).0
unfolding add_node new_node
add_node-IsStarved our now id ip port t v =
    elim (Bool-cases (is_valid_node_id id && is_valid_ip_address ip && is_valid_port port)) [
      | inr bad ↦ rw (bad, add_node) v
      | inl ok ↦ elim (Option-cases (lookup id t.node_registry)) [
        | inr (r, e) ↦ rw (ok, e, add_node) v
        | inl e ↦
            let registered = register_node (new_node now id ip port t.our_node_id) t in
            let r : Ref = record { address = t.next_address; node_id = id } in
            let linked =
              link_index-IsStarved our now r registered
                (register-IsStarved our (new_node now id ip port t.our_node_id) t v) in
            rw (ok, e, add_node)
              (subst (λ o. IsStarved our (link now r (calculate_bucket_index o id) registered))
                (sym v.ours) linked)
      ]
    ]

pub modify_node_frame :
    (f : DhtNode → DhtNode) (r : Ref) (t : RoutingTable)
    → ((modify_node f r t).our_node_id ≡ t.our_node_id)
      × ((modify_node f r t).routing_buckets ≡ t.routing_buckets)
unfolding modify_node
modify_node_frame f r t = ground arith

pub change_node-IsStarved :
    (our : Bytes) (f : DhtNode → DhtNode) (id : Bytes) (t : RoutingTable)
    → IsStarved our t
    → IsStarved our (change_node f id t).0
unfolding change_node
change_node-IsStarved our f id t v = elim (Option-cases (lookup id t.node_registry)) [
  | inl e ↦ rw (e, change_node) v
  | inr (r, e) ↦
      let (same, buckets) = modify_node_frame f r t in
      rw (e, change_node) (IsStarved-frame our t (modify_node f r t) same buckets v)
]

pub remove_node-IsStarved :
    (our id : Bytes) (t : RoutingTable) → IsStarved our t → IsStarved our (remove_node id t).0
unfolding remove_node
remove_node-IsStarved our id t v = elim (Option-cases (lookup id t.node_registry)) [
  | inl e ↦ rw (e, remove_node) v
  | inr (r, e) ↦ elim (Option-cases (lookup r.address t.store)) [
    | inl gone ↦ rw (e, gone, remove_node) v
    | inr (n, found) ↦
        let u = unlink-IsStarved our r n.bucket_index t v in
        rw (e, found, remove_node) (IsStarved-frame our (unlink r n.bucket_index t) _ refl refl u)
  ]
]

evict_node-IsStarved :
    (our : Bytes) (now : ℕ) (r : Ref) (n : DhtNode) (t : RoutingTable)
    → IsStarved our t
    → IsStarved our (evict_node now r n t)
unfolding evict_node
evict_node-IsStarved our now r n t v =
    let evicting : DhtNode → DhtNode = λ n. record n {
      status = evicted;
      eviction_time = now;
      eviction_attempts = n.eviction_attempts + 1;
    } in
    let (same, buckets) = modify_node_frame evicting r t in
    let changed = IsStarved-frame our t (modify_node evicting r t) same buckets v in
    let u = unlink-IsStarved our r n.bucket_index (modify_node evicting r t) changed in
    IsStarved-frame our (unlink r n.bucket_index (modify_node evicting r t)) _ refl refl u

pub evict-IsStarved :
    (our id : Bytes) (now : ℕ) (t : RoutingTable)
    → IsStarved our t
    → IsStarved our (force_node_eviction now id t).0
unfolding force_node_eviction
evict-IsStarved our id now t v = elim (Option-cases (lookup id t.node_registry)) [
  | inl e ↦ rw (e, force_node_eviction) v
  | inr (r, e) ↦ elim (Option-cases (lookup r.address t.store)) [
    | inl gone ↦ rw (e, gone, force_node_eviction) v
    | inr (n, found) ↦ rw (e, found, force_node_eviction) (evict_node-IsStarved our now r n t v)
  ]
]
