-- ===== src/Tests/Input.antt =====
-- The arguments, the lists of hashes, the kinds of torrents and the database.
use dht_crawler.Base.{
  ◌≡◌, refl, pos, List, [], ◌∷◌, ◌++◌, some, none, true, false, Bytes, bytes, bytes_key, arith, map,
}
use dht_crawler.MetadataProtocol.{to_string}
use dht_crawler.Crawler.{Crawler, init, start_crawling}
use dht_crawler.Crawler.Handlers.{peer_strings}
use dht_crawler.Crawler.MetadataOnly.{MetadataRound, setup_metadata_database_mode, metadata_loop}
use dht_crawler.Arguments.{MySqlConfig, new_config, starts, main_arguments}
use dht_crawler.Arguments.Accepted.{IsUsable, main_arguments-IsUsable}
use dht_crawler.Arguments.Printed.{arguments_of, main_arguments-arguments_of}
use dht_crawler.HashList.{hashes_of, is_blank, has_word, starts_with}
use dht_crawler.HashList.RoundTrip.{joined, hashes_of-joined}
use dht_crawler.ContentType.{determine_content_type}
use dht_crawler.ContentType.Order.{first_kind, determine_content_type_lem}
use dht_crawler.MySqlConnection.{MySql, MySqlConnection, split_peer}
use dht_crawler.MySqlConnection.Store.Peers.{split_peer-peer_strings}
use dht_crawler.MySqlConnection.Interface.{mysql_database, setup-not_connected}
use dht_crawler.Tests.{toy_libtorrent, hex_hash, base32_hash}

hashes_of-joined_example :
    hashes_of (λ name. none) (joined (hex_hash ∷ base32_hash ∷ [])) ≡ hex_hash ∷ base32_hash ∷ []
unfolding is_blank has_word starts_with
hashes_of-joined_example =
    hashes_of-joined (λ name. none) hex_hash (base32_hash ∷ []) (cc, ground arith)
      ((cc, ground arith), tt) refl refl

determine_content_type_lem_example :
    determine_content_type (bytes "read.me" ∷ bytes "Film.MKV" ∷ [])
    ≡ first_kind (bytes "read.me" ∷ bytes "Film.MKV" ∷ [])
determine_content_type_lem_example =
    determine_content_type_lem (bytes "read.me" ∷ bytes "Film.MKV" ∷ [])

abbrev config : MySqlConfig
config = record new_config {
  server = bytes "db";
  user = bytes "crawler";
  password = bytes "secret";
  database = bytes "torrents";
  num_workers = pos 8;
  concurrent_mode = false;
}

main_arguments-arguments_of_example :
    main_arguments (arguments_of config (pos 500)) ≡ starts config (pos 500)
main_arguments-arguments_of_example =
    main_arguments-arguments_of config (pos 500) ((refl, refl), refl, refl, refl, refl)
      (omega arith) (omega arith) (omega arith)

main_arguments-IsUsable_example : IsUsable config
main_arguments-IsUsable_example =
    main_arguments-IsUsable (arguments_of config (pos 500)) config (pos 500)
      main_arguments-arguments_of_example

split_peer-peer_strings_example :
    (map split_peer (peer_strings ((bytes "2001", 6881) ∷ []))
      ≡ some (bytes "2001", to_string (pos 6881)) ∷ [])
    × (map split_peer (peer_strings ((bytes "2001" ++ b':' ∷ bytes "db8::1", 6881) ∷ []))
        ≡ some (bytes "2001", bytes "db8::1" ++ (bytes ":" ++ to_string (pos 6881))) ∷ [])
split_peer-peer_strings_example =
    split_peer-peer_strings (bytes "2001") (bytes "db8::1") 6881 (ground arith)

-- A client library that takes no connection and lists the statements it was sent.
abbrev toy_mysql : MySql
toy_mysql = record {
  Client = List Bytes;
  real_connect = λ s c. (s, false);
  query = λ s text. (text ∷ s, true);
  store_result = λ s. (s, some []);
  real_escape_string = λ s text. text;
  errno = λ s. pos 2002;
  error = λ s. bytes "no server";
  format_time = λ t. bytes "2024-01-01 00:00:00";
  thread_id = bytes "1";
  process_id = pos 1;
}

abbrev wait : MetadataRound toy_libtorrent
wait = record { now = 3; elapsed_seconds = 0; alerts = [] }

abbrev unconnected : MySqlConnection toy_mysql
unconnected = record { client = some []; config = new_config; connected = false }

abbrev lone : Crawler toy_libtorrent (mysql_database toy_mysql)
lone = init [] unconnected true false

setup-not_connected_example :
    ((setup_metadata_database_mode lone).shutdown_requested ≡ true)
    × ((setup_metadata_database_mode lone).mysql ≡ lone.mysql)
    × (metadata_loop (wait ∷ []) (start_crawling (setup_metadata_database_mode lone))
        ≡ start_crawling (setup_metadata_database_mode lone))
unfolding init
setup-not_connected_example =
    setup-not_connected {lt = toy_libtorrent} {my = toy_mysql} (wait ∷ []) lone refl
