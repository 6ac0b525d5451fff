-- ===== src/Bep51Indexer/Collection.antt =====
-- What an indexer has collected after any queries and responses.
use dht_crawler.Base.{
  suc, ◌+◌, ◌≤◌, ◌≡◌, refl, List, [], ◌∷◌, Option, Bool, true, false, ◌||◌, Bytes, Bytes-discrete,
  bytes_key, StdSet, contains, contains-add, add, length, take, ltb, if◌then◌else◌, arith,
}
use dht_crawler.Bep51Indexer.{
  Bep51Response, Query, Bep51Indexer, add_infohashes, add_nodes, init, query_sample_infohashes,
  handle_bep51_response, get_unique_infohashes,
}

-- An equal hash stands in the list.
unfoldable pub is_listed : Bytes → List Bytes → Bool
is_listed h [] = false
is_listed h (k ∷ ks) = elim (Bytes-discrete k h) [ yes _ ↦ true | no _ ↦ is_listed h ks ]

-- A node of the list has at least 20 bytes, of which the first 20 are these.
unfoldable pub is_prefix_listed : Bytes → List Bytes → Bool
is_prefix_listed h [] = false
is_prefix_listed h (n ∷ ns) =
    let rest = is_prefix_listed h ns in
    if ltb (length n) 20
    then rest
    else elim (Bytes-discrete (take 20 n) h) [ yes _ ↦ true | no _ ↦ rest ]

-- A query, with the outcome of the random draw, the node and the target, or a response.
pub data Event : Type 0 where
  queries : Bytes → Bytes → Bytes → Event
  responds : Bep51Response → Event

-- What the responses of a history bring.
unfoldable pub brings : Bytes → List Event → Bool
brings h [] = false
brings h (queries r n t ∷ es) = brings h es
brings h (responds r ∷ es) = is_listed h r.infohashes || brings h es

unfoldable pub brings_node : Bytes → List Event → Bool
brings_node h [] = false
brings_node h (queries r n t ∷ es) = brings_node h es
brings_node h (responds r ∷ es) = is_prefix_listed h r.nodes || brings_node h es

contains-add_infohashes :
    (h : Bytes) (hs : List Bytes) (s : StdSet Bytes)
    → contains h (add_infohashes hs s) ≡ (is_listed h hs || contains h s)
unfolding add_infohashes is_listed
contains-add_infohashes h [] s = refl
contains-add_infohashes h (k ∷ hs) s =
    ground (arith, contains-add_infohashes h hs (add k s), contains-add k h s)

contains-add_nodes :
    (h : Bytes) (ns : List Bytes) (s : StdSet Bytes)
    → contains h (add_nodes ns s) ≡ (is_prefix_listed h ns || contains h s)
unfolding add_nodes is_prefix_listed
contains-add_nodes h [] s = refl
contains-add_nodes h (n ∷ ns) s = ground (
  arith,
  contains-add_nodes h ns s,
  contains-add_nodes h ns (add (take 20 n) s),
  contains-add (take 20 n) h s,
)

length-add-le : (k : Bytes) (s : StdSet Bytes) → length (add k s) ≤ suc (length s)
unfolding add
length-add-le k [] = omega arith
length-add-le k (j ∷ s) = ground (arith, length-add-le k s)

length-add_infohashes-le :
    (hs : List Bytes) (s : StdSet Bytes) → length (add_infohashes hs s) ≤ length s + length hs
unfolding add_infohashes
length-add_infohashes-le [] s = omega arith
length-add_infohashes-le (h ∷ hs) s =
    omega (arith, length-add_infohashes-le hs (add h s), length-add-le h s)

module _ {S : Type 0} where
  unfoldable pub run : (S → Query → S × Bool) → List Event → Bep51Indexer S → Bep51Indexer S
  run put [] x = x
  run put (queries r n t ∷ es) x = run put es (query_sample_infohashes put r n t x).0
  run put (responds r ∷ es) x = run put es (handle_bep51_response r x)

  query_frame :
      (put : S → Query → S × Bool) (r n t : Bytes) (x : Bep51Indexer S)
      → ((query_sample_infohashes put r n t x).0.collected_infohashes ≡ x.collected_infohashes)
        × ((query_sample_infohashes put r n t x).0.known_nodes ≡ x.known_nodes)
        × ((query_sample_infohashes put r n t x).0.infohashes_collected ≡ x.infohashes_collected)
  unfolding query_sample_infohashes
  query_frame put r n t x = ground arith

  run-contains :
      (put : S → Query → S × Bool) (es : List Event) (x : Bep51Indexer S) (h : Bytes)
      → (contains h (run put es x).collected_infohashes
          ≡ (brings h es || contains h x.collected_infohashes))
        × (contains h (run put es x).known_nodes ≡ (brings_node h es || contains h x.known_nodes))
  unfolding run brings brings_node handle_bep51_response
  run-contains put [] x h = (refl, refl)
  run-contains put (queries r n t ∷ es) x h =
      let rest = run-contains put es (query_sample_infohashes put r n t x).0 h in
      let frame = query_frame put r n t x in
      (ground (arith, rest.0, frame.0), ground (arith, rest.1, frame.1))
  run-contains put (responds r ∷ es) x h =
      let rest = run-contains put es (handle_bep51_response r x) h in
      (
        ground (arith, rest.0, contains-add_infohashes h r.infohashes x.collected_infohashes),
        ground (arith, rest.1, contains-add_nodes h r.nodes x.known_nodes),
      )

  run_unique_le :
      (put : S → Query → S × Bool) (es : List Event) (x : Bep51Indexer S)
      → length x.collected_infohashes ≤ x.infohashes_collected
      → length (run put es x).collected_infohashes ≤ (run put es x).infohashes_collected
  unfolding run handle_bep51_response
  run_unique_le put [] x h = h
  run_unique_le put (queries r n t ∷ es) x h =
      let frame = query_frame put r n t x in
      run_unique_le put es (query_sample_infohashes put r n t x).0 (rw (frame.0, frame.2) h)
  run_unique_le put (responds r ∷ es) x h =
      run_unique_le put es (handle_bep51_response r x)
        (omega (arith, h, length-add_infohashes-le r.infohashes x.collected_infohashes))

  -- After any queries and responses the indexer holds exactly the infohashes that a response
  -- listed, and exactly the first 20 bytes of the nodes of at least 20 bytes that one listed, and
  -- it counts no fewer infohashes than it holds different ones.
  pub run-init-contains :
      (put : S → Query → S × Bool) (session : Option S) (es : List Event)
      → ((h : Bytes) → contains h (run put es (init session)).collected_infohashes ≡ brings h es)
        × ((h : Bytes) → contains h (run put es (init session)).known_nodes ≡ brings_node h es)
        × (get_unique_infohashes (run put es (init session))
            ≤ (run put es (init session)).infohashes_collected)
  unfolding init contains get_unique_infohashes
  run-init-contains put session es = (
    λ h. ground (arith, (run-contains put es (init session) h).0),
    λ h. ground (arith, (run-contains put es (init session) h).1),
    run_unique_le put es (init session) (omega arith),
  )
