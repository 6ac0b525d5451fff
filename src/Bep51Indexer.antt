-- ===== src/Bep51Indexer.antt =====
-- BEP51DHTIndexer of src/bep51_dht_indexer.hpp: the queries for samples of infohashes, and what the
-- responses bring. dht_put_item of the session is an argument, which answers false where it throws,
-- and so is the random target. The counter of the transactions, a static of the method, is a field.
-- The log is left out, and the counters do not overflow.
pub mod Collection
use dht_crawler.Base.{
  ℕ, ◌+◌, ◌*◌, ◌/◌, pos, List, [], ◌∷◌, Option, none, some, Bool, true, false, Bytes, bytes_key,
  StdSet, add, length, take, ltb, ◌==◌, if◌then◌else◌,
}
use dht_crawler.MetadataProtocol.{to_string}

pub record Bep51Response : Type 0 where
  pub infohashes : List Bytes
  pub nodes : List Bytes

-- The entry of a query: its transaction, the id and the target.
pub record Query : Type 0 where
  pub transaction : Bytes
  pub id : Bytes
  pub target : Bytes

pub record Bep51Indexer (S : Type 0) : Type 0 where
  pub session : Option S
  pub next_transaction : ℕ
  pub total_queries : ℕ
  pub successful_queries : ℕ
  pub infohashes_collected : ℕ
  pub collected_infohashes : StdSet Bytes
  pub known_nodes : StdSet Bytes

-- The loop over the infohashes of a response.
unfoldable pub add_infohashes : List Bytes → StdSet Bytes → StdSet Bytes
add_infohashes [] s = s
add_infohashes (h ∷ hs) s = add_infohashes hs (add h s)

-- The loop over its nodes: node.length() >= 20, and the first 20 bytes.
unfoldable pub add_nodes : List Bytes → StdSet Bytes → StdSet Bytes
add_nodes [] s = s
add_nodes (n ∷ ns) s = add_nodes ns (if ltb (length n) 20 then s else add (take 20 n) s)

module _ {S : Type 0} where
  unfoldable pub init : Option S → Bep51Indexer S
  init session = record {
    session = session;
    next_transaction = 0;
    total_queries = 0;
    successful_queries = 0;
    infohashes_collected = 0;
    collected_infohashes = [];
    known_nodes = [];
  }

  unfoldable pub query_sample_infohashes :
      (S → Query → S × Bool) → Bytes → Bytes → Bytes → Bep51Indexer S → Bep51Indexer S × Bool
  query_sample_infohashes dht_put_item random_id node_id target_id x = elim x.session [
    | none ↦ (x, false)
    | some s ↦
        let (s', sent) = dht_put_item s (record {
          transaction = to_string (pos x.next_transaction);
          id = node_id;
          target = if length target_id == 0 then random_id else target_id;
        }) in
        let counted = record x { session = some s'; next_transaction = x.next_transaction + 1 } in
        if sent
        then (record counted { total_queries = x.total_queries + 1 }, true)
        else (counted, false)
  ]

  unfoldable pub handle_bep51_response : Bep51Response → Bep51Indexer S → Bep51Indexer S
  handle_bep51_response r x = record x {
    successful_queries = x.successful_queries + 1;
    infohashes_collected = x.infohashes_collected + length r.infohashes;
    collected_infohashes = add_infohashes r.infohashes x.collected_infohashes;
    known_nodes = add_nodes r.nodes x.known_nodes;
  }

  unfoldable pub get_unique_infohashes : Bep51Indexer S → ℕ
  get_unique_infohashes x = length x.collected_infohashes

  -- The rate of print_statistics, in percent.
  unfoldable pub success_rate : Bep51Indexer S → ℕ
  success_rate x = if ltb 0 x.total_queries then x.successful_queries * 100 / x.total_queries else 0
