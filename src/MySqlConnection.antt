-- ===== src/MySqlConnection.antt =====
-- MySQLConnection of src/dht_crawler.cpp: the statements that it sends, and what it makes of the
-- answers. The client library is a parameter. createTables, which sends fixed statements, and the
-- console are left out; no exception arises but from std::stoi.
pub mod Store
pub mod Select
pub mod Interface
use dht_crawler.Base.{
  ℕ, ◌+◌, ℤ, pos, negsuc, ltb_ℤ, List, [], ◌∷◌, ◌++◌, Option, none, some, Bool, true, false, Bytes,
  bytes, ◌==◌, String, map, if◌then◌else◌,
}
use dht_crawler.MetadataProtocol.{to_string}
use dht_crawler.Stoi.{stoi}
use dht_crawler.Arguments.{MySqlConfig}
use dht_crawler.Crawler.{DiscoveredTorrent, Database}

-- The client library. A query answers whether it succeeded, a stored result is the first column of
-- its rows, none where it cannot be stored, and an empty entry is NULL.
pub record MySql : Type 1 where
  pub Client : Type 0
  pub real_connect : Client → MySqlConfig → Client × Bool
  pub query : Client → Bytes → Client × Bool
  pub store_result : Client → Client × Option (List (Option Bytes))
  pub real_escape_string : Client → Bytes → Bytes
  pub errno : Client → ℤ
  pub error : Client → Bytes
  -- strftime of localtime, the thread and the process.
  pub format_time : ℤ → Bytes
  pub thread_id : Bytes
  pub process_id : ℤ

-- m_connection is none where mysql_init failed.
pub record MySqlConnection (my : MySql) : Type 0 where
  pub client : Option my.Client
  pub config : MySqlConfig
  pub connected : Bool

unfoldable pub concat : List Bytes → Bytes
concat [] = []
concat (t ∷ ts) = t ++ concat ts

-- The texts of a list with `between` between them.
unfoldable pub joined : Bytes → List Bytes → Bytes
joined between [] = []
joined between (t ∷ []) = t
joined between (t ∷ u ∷ ts) = t ++ (between ++ joined between (u ∷ ts))

abbrev pub sql_bool : Bool → Bytes
sql_bool true = bytes "TRUE"
sql_bool false = bytes "FALSE"

-- The address and the port of a peer: what stands before and behind the first colon; none: no colon.
unfoldable pub split_peer : Bytes → Option (Bytes × Bytes)
split_peer [] = none
split_peer (c ∷ cs) = elim (c == b':') [
  | true ↦ some ([], cs)
  | false ↦ elim (split_peer cs) [
    | none ↦ none
    | some (address, port_str) ↦ some (c ∷ address, port_str)
  ]
]

module _ {my : MySql} where
  unfoldable pub escape_string : MySqlConnection my → Bytes → Bytes
  escape_string c str = elim c.client [ none ↦ str | some s ↦ my.real_escape_string s str ]

  -- 'text', escaped.
  unfoldable pub quoted : MySqlConnection my → Bytes → Bytes
  unfolding escape_string
  quoted c str = bytes "'" ++ (escape_string c str ++ bytes "'")

  -- A JSON array of escaped strings.
  unfoldable pub json_array : MySqlConnection my → List Bytes → Bytes
  unfolding escape_string
  json_array c items =
      bytes "["
      ++ (joined (bytes ", ") (map (λ s. bytes "\"" ++ (escape_string c s ++ bytes "\"")) items)
          ++ bytes "]")

  -- mysql_query on the connection.
  unfoldable pub send : Bytes → MySqlConnection my → MySqlConnection my × Bool
  send text c = elim c.client [
    | none ↦ (c, false)
    | some s ↦ let (s', sent) = my.query s text in (record c { client = some s' }, sent)
  ]

  unfoldable pub last_errno : MySqlConnection my → ℤ
  last_errno c = elim c.client [ none ↦ pos 0 | some s ↦ my.errno s ]

  unfoldable pub last_error : MySqlConnection my → Bytes
  last_error c = elim c.client [ none ↦ [] | some s ↦ my.error s ]

  -- function_name, error_code, error_message, severity and additional_data; the caller and the stack
  -- trace are always empty.
  unfoldable pub log_error :
      Bytes → ℤ → Bytes → Bytes → Bytes → MySqlConnection my → MySqlConnection my × Bool
  unfolding quoted concat
  log_error function_name error_code error_message severity additional_data c =
      if c.connected
      then send
          (concat (
            bytes "INSERT INTO log (function_name, caller_function, error_code, error_message, "
            ∷ bytes "stack_trace, severity, thread_id, process_id, additional_data) VALUES ("
            ∷ quoted c function_name
            ∷ bytes ", "
            ∷ quoted c []
            ∷ bytes ", "
            ∷ to_string error_code
            ∷ bytes ", "
            ∷ quoted c error_message
            ∷ bytes ", "
            ∷ quoted c []
            ∷ bytes ", "
            ∷ quoted c severity
            ∷ bytes ", "
            ∷ quoted c my.thread_id
            ∷ bytes ", "
            ∷ to_string my.process_id
            ∷ bytes ", "
            ∷ quoted c additional_data
            ∷ bytes ")"
            ∷ []))
          c
      else (c, false)

  abbrev pub log_query_error : Bytes → Bytes → MySqlConnection my → MySqlConnection my
  log_query_error function_name additional_data c =
      (log_error function_name (last_errno c) (last_error c) (bytes "ERROR") additional_data c).0

  abbrev pub log_not_connected : Bytes → MySqlConnection my → MySqlConnection my
  log_not_connected function_name c =
      (log_error function_name (negsuc 0) (bytes "Not connected to database") (bytes "WARNING") []
        c).0

  -- connect, without createTables behind it.
  unfoldable pub connect : MySqlConnection my → MySqlConnection my × Bool
  connect c = elim c.client [
    | none ↦ (
      (log_error (bytes "MySQLConnection::connect") (negsuc 0) (bytes "MySQL initialization failed")
          (bytes "CRITICAL") [] c).0,
      false,
    )
    | some s ↦
        let (s', opened) = my.real_connect s c.config in
        let c' = record c { client = some s' } in
        if opened then (record c' { connected = true }, true) else (
          (log_error (bytes "MySQLConnection::connect") (last_errno c') (last_error c')
              (bytes "CRITICAL")
              (concat
                (bytes "server=" ∷ c.config.server ∷ bytes ", database=" ∷ c.config.database ∷ []))
              c').0,
          false,
        )
  ]

unfoldable pub creation_date_str : MySql → DiscoveredTorrent → Bytes
creation_date_str my t =
    if ltb_ℤ (pos 0) t.creation_date
    then bytes "'" ++ (my.format_time t.creation_date ++ bytes "'")
    else bytes "NULL"
