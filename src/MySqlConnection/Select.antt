-- ===== src/MySqlConnection/Select.antt =====
-- The statements of MySQLConnection that read, for the database mode.
use dht_crawler.Base.{
  ℕ, ℤ, pos, negsuc, List, [], ◌∷◌, ◌++◌, Option, none, some, Bytes, bytes, if◌then◌else◌,
}
use dht_crawler.MetadataProtocol.{to_string}
use dht_crawler.Stoi.{stoi}
use dht_crawler.MySqlConnection.{
  MySql, MySqlConnection, concat, send, last_errno, log_error, log_query_error, log_not_connected,
}

module _ {my : MySql} where
  -- mysql_store_result.
  unfoldable pub stored_result :
      MySqlConnection my → MySqlConnection my × Option (List (Option Bytes))
  stored_result c = elim c.client [
    | none ↦ (c, none)
    | some s ↦ let (s', rows) = my.store_result s in (record c { client = some s' }, rows)
  ]

  -- The rows of a query; none: it failed, or its result cannot be stored.
  unfoldable pub select_rows :
      Bytes → Bytes → MySqlConnection my → MySqlConnection my × Option (List (Option Bytes))
  unfolding stored_result
  select_rows function_name text c =
      let (c', done) = send text c in
      if done
      then (let (c'', rows) = stored_result c' in
          elim rows [
            | some rs ↦ (c'', some rs)
            | none ↦ (
              (log_error function_name (last_errno c'') (bytes "Failed to store result")
                  (bytes "ERROR") [] c'').0,
              none,
            )
          ])
      else (log_query_error function_name [] c', none)

abbrev pub missing_metadata : Bytes
missing_metadata =
    bytes "FROM discovered_torrents WHERE (num_files < 1 OR num_files IS NULL) AND timed_out = 0"

-- The rows that are not NULL.
unfoldable pub non_null : List (Option Bytes) → List Bytes
non_null [] = []
non_null (none ∷ rows) = non_null rows
non_null (some row ∷ rows) = row ∷ non_null rows

-- The count of the first row, 0 where there is none or it is NULL; none: std::stoi throws.
unfoldable pub first_count : List (Option Bytes) → Option ℤ
first_count [] = some (pos 0)
first_count (none ∷ rows) = some (pos 0)
first_count (some row ∷ rows) = stoi row

module _ {my : MySql} where
  unfoldable pub get_torrents_with_missing_metadata :
      ℕ → ℕ → MySqlConnection my → MySqlConnection my × List Bytes
  unfolding concat
  get_torrents_with_missing_metadata limit offset c =
      let name = bytes "MySQLConnection::getTorrentsWithMissingMetadata" in
      if c.connected
      then (let (c', rows) =
            select_rows name
              (concat (
                bytes "SELECT info_hash "
                ∷ missing_metadata
                ∷ bytes " ORDER BY id ASC LIMIT "
                ∷ to_string (pos limit)
                ∷ bytes " OFFSET "
                ∷ to_string (pos offset)
                ∷ []))
              c in
          (c', elim rows [ none ↦ [] | some rs ↦ non_null rs ]))
      else (log_not_connected name c, [])

  unfoldable pub get_total_torrents_with_missing_metadata :
      MySqlConnection my → MySqlConnection my × ℤ
  get_total_torrents_with_missing_metadata c =
      let name = bytes "MySQLConnection::getTotalTorrentsWithMissingMetadata" in
      if c.connected
      then (let (c', rows) = select_rows name (bytes "SELECT COUNT(*) " ++ missing_metadata) c in
          elim rows [
            | none ↦ (c', pos 0)
            | some rs ↦ elim (first_count rs) [
              | some n ↦ (c', n)
              | none ↦
                  ((log_error name (negsuc 0) (bytes "stoi") (bytes "CRITICAL") [] c').0, pos 0)
            ]
          ])
      else (log_not_connected name c, pos 0)
