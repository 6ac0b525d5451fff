-- ===== src/Tests/Routing.antt =====
-- The routing table.
use dht_crawler.Base.{
  ℕ, ◌+◌, ◌≡◌, ◌≢◌, refl, pos, List, [], ◌∷◌, true, false, Bytes, bytes, All, arith,
}
use dht_crawler.RoutingTable.{
  calculate_xor_distance, xor_bytes, bit_xor, first_nonzero, count_leading_zeros, RoutingConfig,
  init, calculate_bucket_index,
}
use dht_crawler.RoutingTable.Nodes.{get_nodes_in_bucket}
use dht_crawler.RoutingTable.Distance.{shared_prefix, bucket_index-shared_prefix}
use dht_crawler.RoutingTable.Buckets.{
  Call, adds, updates, removes, optimizes, splits, merges, configures, AtZero, run,
}
use dht_crawler.RoutingTable.Membership.{run-get_nodes_in_bucket}

abbrev our_id : Bytes
our_id = bytes "ABCDEFGHIJKLMNOPQRST"

abbrev near_id : Bytes
near_id = bytes "ABCDEFGHIJKLMNOPQRSU"

abbrev other_id : Bytes
other_id = bytes "abcdefghijklmnopqrst"

abbrev config : RoutingConfig
config = record {
  max_bucket_size = 8;
  min_bucket_size = 4;
  node_timeout = 300_000;
  enable_bucket_splitting = true;
  enable_bucket_merging = true;
  reaches_good = λ q. true;
  reaches_bad = λ q. false;
}

abbrev short_id : Bytes
short_id = 1 ∷ 2 ∷ []

abbrev other_short_id : Bytes
other_short_id = 1 ∷ 3 ∷ []

ids_differ : short_id ≢ other_short_id
ids_differ e = absurd cc

bucket_index-shared_prefix_example :
    calculate_bucket_index short_id other_short_id
    ≡ pos (24 + shared_prefix short_id other_short_id)
bucket_index-shared_prefix_example =
    bucket_index-shared_prefix short_id other_short_id refl (omega arith, (omega arith, tt))
      (omega arith, (omega arith, tt)) ids_differ

-- Fifteen bits are shared.
index_of_neighbour : calculate_bucket_index short_id other_short_id ≡ pos 39
unfolding calculate_bucket_index calculate_xor_distance xor_bytes bit_xor first_nonzero
    count_leading_zeros
index_of_neighbour = refl

abbrev history : List (ℕ × Call)
history =
    (1, adds near_id (bytes "10.0.0.1") (pos 6881))
    ∷ (2, adds other_id (bytes "10.0.0.2") (pos 6881))
    ∷ (3, updates other_id true (pos 40))
    ∷ (4, removes near_id)
    ∷ (5, optimizes)
    ∷ (6, configures (record config { max_bucket_size = 0 }))
    ∷ (7, splits (pos 7))
    ∷ (8, merges (pos 8))
    ∷ []

run-get_nodes_in_bucket_example :
    All (AtZero our_id) (get_nodes_in_bucket (pos 0) (run history (init 0 our_id config)))
run-get_nodes_in_bucket_example =
    run-get_nodes_in_bucket our_id config 0 history (pos 0)
      (tt, (tt, (tt, (tt, (tt, (tt, (ground arith, (tt, tt))))))))
