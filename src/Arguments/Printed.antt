-- ===== src/Arguments/Printed.antt =====
-- Settings written as arguments are read back.
use dht_crawler.Base.{
  ℤ, pos, ltb_ℤ, List, [], ◌∷◌, none, some, Bool, true, false, ◌≡◌, refl, ap, ◌∙◌, Bytes, bytes,
  Bytes-discrete, ℕ_discrete, arith, not,
}
use dht_crawler.MetadataProtocol.{to_string}
use dht_crawler.Stoi.{stoi, stoi-to_string, IsInt}
use dht_crawler.Arguments.{
  MySqlConfig, starts, Valued, server, port, user, password, database, queries, metadata, workers,
  Flag, metadata_database, debug, verbose, metadata_log, sequential, no_bep51, keeps_on, find,
  valued_table, flag_table, set_workers, set_value, set_flag, alone, with_defaults, parse,
  main_arguments,
}
use dht_crawler.Arguments.Accepted.{IsUsable}

-- A flag before other arguments, where it is given.
abbrev pub flag_before : Bool → Bytes → List Bytes → List Bytes
flag_before true text rest = text ∷ rest
flag_before false text rest = rest

-- The arguments that ask for these settings.
abbrev pub arguments_of : MySqlConfig → ℤ → List Bytes
arguments_of c q =
    bytes "--server"
    ∷ c.server
    ∷ bytes "--port"
    ∷ to_string c.port
    ∷ bytes "--user"
    ∷ c.user
    ∷ bytes "--password"
    ∷ c.password
    ∷ bytes "--database"
    ∷ c.database
    ∷ bytes "--queries"
    ∷ to_string q
    ∷ bytes "--metadata"
    ∷ c.metadata_hashes
    ∷ bytes "--workers"
    ∷ to_string c.num_workers
    ∷ flag_before c.metadata_database_mode (bytes "--metadata_database") (
        flag_before c.debug_mode (bytes "--debug") (
          flag_before c.verbose_mode (bytes "--verbose") (
            flag_before c.metadata_log_mode (bytes "--metadata_log") (
              flag_before (not c.concurrent_mode) (bytes "--sequential")
                (flag_before (not c.bep51_mode) (bytes "--no-bep51") [])))))

parse_valued :
    (arg v : Bytes) (rest : List Bytes) (o : Valued) (c c' : MySqlConfig) (q q' : ℤ)
    → find arg valued_table ≡ some o
    → set_value o v (stoi v) c q ≡ keeps_on c' q'
    → parse (arg ∷ v ∷ rest) c q ≡ parse rest c' q'
unfolding parse
parse_valued arg v rest o c c' q q' e s = ground (arith, e, s)

parse_flag :
    (arg : Bytes) (rest : List Bytes) (f : Flag) (c c' : MySqlConfig) (q q' : ℤ)
    → find arg valued_table ≡ none
    → find arg flag_table ≡ some f
    → set_flag f c q ≡ keeps_on c' q'
    → parse (arg ∷ rest) c q ≡ parse rest c' q'
unfolding parse alone
parse_flag arg [] f c c' q q' n e s = ground (arith, n, e, s)
parse_flag arg (v ∷ rest) f c c' q q' n e s = ground (arith, n, e, s)

numbers :
    (c : MySqlConfig) (q n : ℤ) (rest : List Bytes)
    → IsInt n
    → (parse (bytes "--port" ∷ to_string n ∷ rest) c q ≡ parse rest (record c { port = n }) q)
      × (parse (bytes "--queries" ∷ to_string n ∷ rest) c q ≡ parse rest c n)
unfolding find set_value Bytes-discrete ℕ_discrete
numbers c q n rest h =
    let read = stoi-to_string n h in
    (
      parse_valued (bytes "--port") (to_string n) rest port c _ q _ refl (rw read refl),
      parse_valued (bytes "--queries") (to_string n) rest queries c _ q _ refl (rw read refl),
    )

texts_read :
    (c : MySqlConfig) (q : ℤ) (v : Bytes) (rest : List Bytes)
    → (parse (bytes "--server" ∷ v ∷ rest) c q ≡ parse rest (record c { server = v }) q)
      × (parse (bytes "--user" ∷ v ∷ rest) c q ≡ parse rest (record c { user = v }) q)
      × (parse (bytes "--password" ∷ v ∷ rest) c q ≡ parse rest (record c { password = v }) q)
      × (parse (bytes "--database" ∷ v ∷ rest) c q ≡ parse rest (record c { database = v }) q)
      × (parse (bytes "--metadata" ∷ v ∷ rest) c q
          ≡ parse rest (record c { metadata_hashes = v }) q)
unfolding find set_value Bytes-discrete ℕ_discrete
texts_read c q v rest = (
  parse_valued (bytes "--server") v rest server c _ q _ refl refl,
  parse_valued (bytes "--user") v rest user c _ q _ refl refl,
  parse_valued (bytes "--password") v rest password c _ q _ refl refl,
  parse_valued (bytes "--database") v rest database c _ q _ refl refl,
  parse_valued (bytes "--metadata") v rest metadata c _ q _ refl refl,
)

workers_read :
    (c : MySqlConfig) (q n : ℤ) (rest : List Bytes)
    → IsInt n
    → (ltb_ℤ n (pos 1) ≡ false) × (ltb_ℤ (pos 16) n ≡ false)
    → parse (bytes "--workers" ∷ to_string n ∷ rest) c q
      ≡ parse rest (record c { num_workers = n }) q
unfolding find set_value Bytes-discrete ℕ_discrete
workers_read c q n rest h (low, high) =
    let inside : set_workers n c q ≡ keeps_on (record c { num_workers = n }) q =
      unfold set_workers in ground (arith, low, high) in
    parse_valued (bytes "--workers") (to_string n) rest workers c _ q _ refl
      (rw (stoi-to_string n h) inside)

module _ (c : MySqlConfig) (q : ℤ) (rest : List Bytes) where
  database_read :
      (b : Bool)
      → parse
          (flag_before b (bytes "--metadata_database") rest)
          (record c { metadata_database_mode = false })
          q
        ≡ parse rest (record c { metadata_database_mode = b }) q
  unfolding find set_flag Bytes-discrete ℕ_discrete
  database_read true =
      parse_flag (bytes "--metadata_database") rest metadata_database _ _ q _ refl refl refl
  database_read false = refl

  debug_read :
      (b : Bool)
      → parse (flag_before b (bytes "--debug") rest) (record c { debug_mode = false }) q
        ≡ parse rest (record c { debug_mode = b }) q
  unfolding find set_flag Bytes-discrete ℕ_discrete
  debug_read true = parse_flag (bytes "--debug") rest debug _ _ q _ refl refl refl
  debug_read false = refl

  verbose_read :
      (b : Bool)
      → parse (flag_before b (bytes "--verbose") rest) (record c { verbose_mode = false }) q
        ≡ parse rest (record c { verbose_mode = b }) q
  unfolding find set_flag Bytes-discrete ℕ_discrete
  verbose_read true = parse_flag (bytes "--verbose") rest verbose _ _ q _ refl refl refl
  verbose_read false = refl

  log_read :
      (b : Bool)
      → parse
          (flag_before b (bytes "--metadata_log") rest)
          (record c { metadata_log_mode = false })
          q
        ≡ parse rest (record c { metadata_log_mode = b }) q
  unfolding find set_flag Bytes-discrete ℕ_discrete
  log_read true = parse_flag (bytes "--metadata_log") rest metadata_log _ _ q _ refl refl refl
  log_read false = refl

  sequential_read :
      (b : Bool)
      → parse
          (flag_before (not b) (bytes "--sequential") rest)
          (record c { concurrent_mode = true })
          q
        ≡ parse rest (record c { concurrent_mode = b }) q
  unfolding find set_flag Bytes-discrete ℕ_discrete
  sequential_read false = parse_flag (bytes "--sequential") rest sequential _ _ q _ refl refl refl
  sequential_read true = refl

  bep51_read :
      (b : Bool)
      → parse (flag_before (not b) (bytes "--no-bep51") rest) (record c { bep51_mode = true }) q
        ≡ parse rest (record c { bep51_mode = b }) q
  unfolding find set_flag Bytes-discrete ℕ_discrete
  bep51_read false = parse_flag (bytes "--no-bep51") rest no_bep51 _ _ q _ refl refl refl
  bep51_read true = refl

with_defaults_usable : (c : MySqlConfig) → IsUsable c → with_defaults c ≡ c
unfolding with_defaults
with_defaults_usable c (r, s, u, p, d) = ground (arith, s, u, p, d)

parsed : (c : MySqlConfig) (q : ℤ) → IsUsable c → parse [] c q ≡ starts c q
unfolding parse
parsed c q v = ap (λ d. starts d q) (with_defaults_usable c v)

-- Settings with 1 to 16 workers, with texts that are not empty and with numbers that are ints, are
-- read back from the arguments that ask for them.
pub main_arguments-arguments_of :
    (c : MySqlConfig) (q : ℤ)
    → IsUsable c
    → IsInt c.port
    → IsInt c.num_workers
    → IsInt q
    → main_arguments (arguments_of c q) ≡ starts c q
unfolding main_arguments
main_arguments-arguments_of c q v port_int workers_int queries_int =
    (texts_read _ _ c.server _).0
    ∙ (numbers _ _ c.port _ port_int).0
    ∙ (texts_read _ _ c.user _).1
    ∙ (texts_read _ _ c.password _).2
    ∙ (texts_read _ _ c.database _).3
    ∙ (numbers _ _ q _ queries_int).1
    ∙ (texts_read _ _ c.metadata_hashes _).4
    ∙ workers_read _ _ c.num_workers _ workers_int v.0
    ∙ database_read
        (record c {
          debug_mode = false;
          verbose_mode = false;
          metadata_log_mode = false;
          concurrent_mode = true;
          bep51_mode = true;
        })
        q _ c.metadata_database_mode
    ∙ debug_read
        (record c {
          verbose_mode = false;
          metadata_log_mode = false;
          concurrent_mode = true;
          bep51_mode = true;
        })
        q _ c.debug_mode
    ∙ verbose_read
        (record c { metadata_log_mode = false; concurrent_mode = true; bep51_mode = true }) q _
        c.verbose_mode
    ∙ log_read (record c { concurrent_mode = true; bep51_mode = true }) q _ c.metadata_log_mode
    ∙ sequential_read (record c { bep51_mode = true }) q _ c.concurrent_mode
    ∙ bep51_read c q _ c.bep51_mode
    ∙ parsed c q v
