-- ===== src/Arguments.antt =====
-- The command line of src/dht_crawler.cpp: the loop of main over its arguments, and the defaults. The
-- texts that main prints are left out. An exception of std::stoi is caught by nobody.
pub mod Accepted
pub mod Printed
use dht_crawler.Base.{
  ℕ, ℤ, pos, negsuc, ltb_ℤ, List, [], ◌∷◌, Option, none, some, Bool, true, false, ◌||◌, ◌≡◌, refl,
  Bytes, bytes, Bytes-discrete, length, ◌==◌, if◌then◌else◌, String,
}
use dht_crawler.Stoi.{stoi}

-- MySQLConfig, as it is made.
pub record MySqlConfig : Type 0 where
  pub server : Bytes
  pub user : Bytes
  pub password : Bytes
  pub database : Bytes
  pub port : ℤ
  pub metadata_hashes : Bytes
  pub metadata_database_mode : Bool
  pub debug_mode : Bool
  pub verbose_mode : Bool
  pub metadata_log_mode : Bool
  pub concurrent_mode : Bool
  pub num_workers : ℤ
  pub bep51_mode : Bool

abbrev pub new_config : MySqlConfig
new_config = record {
  server = [];
  user = [];
  password = [];
  database = [];
  port = pos 3306;
  metadata_hashes = [];
  metadata_database_mode = false;
  debug_mode = false;
  verbose_mode = false;
  metadata_log_mode = false;
  concurrent_mode = true;
  num_workers = pos 4;
  bep51_mode = true;
}

-- How main goes on: it exits with a code, an exception ends it, or the crawler starts.
pub data Outcome : Type 0 where
  exits : ℕ → Outcome
  throws : Outcome
  starts : MySqlConfig → ℤ → Outcome

-- An argument with a value behind it, or one that stands alone.
pub data Valued : Type 0 where
  server port user password database queries metadata workers : Valued

pub data Flag : Type 0 where
  help test_missing_libs metadata_database debug verbose metadata_log sequential no_bep51 : Flag

-- A step of the loop: the settings behind it, or the end of main.
pub data Step : Type 0 where
  keeps_on : MySqlConfig → ℤ → Step
  ends : Outcome → Step

-- The first entry with this text.
unfoldable pub find {ℓ} : {A : Type ℓ} → Bytes → List (String × A) → Option A
find arg [] = none
find arg ((text, a) ∷ table) = elim (Bytes-discrete arg (bytes text)) [
  | yes _ ↦ some a
  | no _ ↦ find arg table
]

abbrev pub valued_table : List (String × Valued)
valued_table =
    ("--server", server)
    ∷ ("--port", port)
    ∷ ("--user", user)
    ∷ ("--password", password)
    ∷ ("--database", database)
    ∷ ("--queries", queries)
    ∷ ("--metadata", metadata)
    ∷ ("--workers", workers)
    ∷ []

abbrev pub flag_table : List (String × Flag)
flag_table =
    ("--help", help)
    ∷ ("--test-missing-libs", test_missing_libs)
    ∷ ("--metadata_database", metadata_database)
    ∷ ("--debug", debug)
    ∷ ("--verbose", verbose)
    ∷ ("--metadata_log", metadata_log)
    ∷ ("--sequential", sequential)
    ∷ ("--no-bep51", no_bep51)
    ∷ []

-- if (config.num_workers < 1 || config.num_workers > 16) return 1;
unfoldable pub set_workers : ℤ → MySqlConfig → ℤ → Step
set_workers n c q =
    if ltb_ℤ n (pos 1) || ltb_ℤ (pos 16) n
    then ends (exits 1)
    else keeps_on (record c { num_workers = n }) q

-- What an argument with its value does, where std::stoi gave this answer for the value.
unfoldable pub set_value : Valued → Bytes → Option ℤ → MySqlConfig → ℤ → Step
set_value server v n c q = keeps_on (record c { server = v }) q
set_value user v n c q = keeps_on (record c { user = v }) q
set_value password v n c q = keeps_on (record c { password = v }) q
set_value database v n c q = keeps_on (record c { database = v }) q
set_value metadata v n c q = keeps_on (record c { metadata_hashes = v }) q
set_value port v none c q = ends throws
set_value port v (some n) c q = keeps_on (record c { port = n }) q
set_value queries v none c q = ends throws
set_value queries v (some n) c q = keeps_on c n
set_value workers v none c q = ends throws
set_value workers v (some n) c q = set_workers n c q

unfoldable pub set_flag : Flag → MySqlConfig → ℤ → Step
set_flag help c q = ends (exits 0)
set_flag test_missing_libs c q = ends (exits 0)
set_flag metadata_database c q = keeps_on (record c { metadata_database_mode = true }) q
set_flag debug c q = keeps_on (record c { debug_mode = true }) q
set_flag verbose c q = keeps_on (record c { verbose_mode = true }) q
set_flag metadata_log c q = keeps_on (record c { metadata_log_mode = true }) q
set_flag sequential c q = keeps_on (record c { concurrent_mode = false }) q
set_flag no_bep51 c q = keeps_on (record c { bep51_mode = false }) q

-- An argument that no flag spells is unknown.
unfoldable pub alone : Option Flag → MySqlConfig → ℤ → Step
alone none c q = ends (exits 1)
alone (some f) c q = set_flag f c q

abbrev pub is_empty : Bytes → Bool
is_empty [] = true
is_empty (c ∷ cs) = false

-- The test mode without a database, and the default server.
unfoldable pub with_defaults : MySqlConfig → MySqlConfig
with_defaults c =
    let c' =
      if is_empty c.user || is_empty c.password || is_empty c.database
      then record c { user = bytes "test"; password = bytes "test"; database = bytes "test" }
      else c in
    if is_empty c'.server then record c' { server = bytes "localhost" } else c'

unfoldable pub parse : List Bytes → MySqlConfig → ℤ → Outcome
parse [] c q = starts (with_defaults c) q
parse (arg ∷ []) c q = elim (alone (find arg flag_table) c q) [
  | ends o ↦ o
  | keeps_on c' q' ↦ starts (with_defaults c') q'
]
parse (arg ∷ v ∷ rest) c q = elim (find arg valued_table) [
  | some option ↦ elim (set_value option v (stoi v) c q) [
    | ends o ↦ o
    | keeps_on c' q' ↦ parse rest c' q'
  ]
  | none ↦ elim (alone (find arg flag_table) c q) [
    | ends o ↦ o
    | keeps_on c' q' ↦ parse (v ∷ rest) c' q'
  ]
]

-- main, with no argument or the arguments behind the program's name.
unfoldable pub main_arguments : List Bytes → Outcome
main_arguments [] = exits 0
main_arguments (a ∷ args) = parse (a ∷ args) new_config (negsuc 0)
