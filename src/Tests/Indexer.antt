-- ===== src/Tests/Indexer.antt =====
-- The indexer of infohashes.
use dht_crawler.Base.{◌≡◌, ◌≤◌, List, [], ◌∷◌, some, true, Bool, Bytes, bytes, bytes_key, contains}
use dht_crawler.Bep51Indexer.{Query, Bep51Indexer, init, get_unique_infohashes}
use dht_crawler.Bep51Indexer.Collection.{
  Event, queries, responds, run, brings, brings_node, run-init-contains,
}

-- A session that lists the queries put.
abbrev put : List Query → Query → List Query × Bool
put s q = (q ∷ s, true)

abbrev events : List Event
events =
    queries (bytes "r") (bytes "n") (bytes "t")
    ∷ responds (record {
      infohashes = bytes "h" ∷ bytes "g" ∷ bytes "h" ∷ [];
      nodes = bytes "ABCDEFGHIJKLMNOPQRST10001" ∷ bytes "short" ∷ [];
    })
    ∷ []

abbrev indexer : Bep51Indexer (List Query)
indexer = run put events (init (some []))

run-init-contains_example :
    ((h : Bytes) → contains h indexer.collected_infohashes ≡ brings h events)
    × ((h : Bytes) → contains h indexer.known_nodes ≡ brings_node h events)
    × (get_unique_infohashes indexer ≤ indexer.infohashes_collected)
run-init-contains_example = run-init-contains put (some []) events
