-- ===== src/Arguments/Accepted.antt =====
-- What main accepts: the settings that it starts the crawler with, and that each can be asked for.
use dht_crawler.Base.{
  ℤ, pos, negsuc, ltb_ℤ, List, [], ◌∷◌, Option, none, some, false, ◌||◌, ◌≡◌, refl, subst, Bytes,
  arith, Bool-cases, inl, inr,
}
use dht_crawler.Stoi.{stoi}
use dht_crawler.Arguments.{
  MySqlConfig, new_config, Outcome, exits, throws, starts, Valued, server, port, user, password,
  database, queries, metadata, workers, Flag, help, test_missing_libs, metadata_database, debug,
  verbose, metadata_log, sequential, no_bep51, Step, keeps_on, ends, find, valued_table, flag_table,
  set_workers, set_value, set_flag, alone, is_empty, with_defaults, parse, main_arguments,
}

-- num_workers is from 1 to 16.
abbrev pub InRange : MySqlConfig → Type 0
InRange c = (ltb_ℤ c.num_workers (pos 1) ≡ false) × (ltb_ℤ (pos 16) c.num_workers ≡ false)

-- The settings that the crawler gets.
abbrev pub IsUsable : MySqlConfig → Type 0
IsUsable c =
    InRange c
    × (is_empty c.server ≡ false)
    × (is_empty c.user ≡ false)
    × (is_empty c.password ≡ false)
    × (is_empty c.database ≡ false)

abbrev pub Usable : Outcome → Type 0
Usable (exits n) = Unit
Usable throws = Unit
Usable (starts c q) = IsUsable c

abbrev Ranged : Step → Type 0
Ranged (keeps_on c q) = InRange c
Ranged (ends o) = Usable o

with_defaults-IsUsable : (c : MySqlConfig) → InRange c → IsUsable (with_defaults c)
unfolding with_defaults
with_defaults-IsUsable c h = ground arith

set_value-Ranged :
    (o : Valued) (v : Bytes) (n : Option ℤ) (c : MySqlConfig) (q : ℤ)
    → InRange c
    → Ranged (set_value o v n c q)
unfolding set_value set_workers
set_value-Ranged server v n c q h = h
set_value-Ranged user v n c q h = h
set_value-Ranged password v n c q h = h
set_value-Ranged database v n c q h = h
set_value-Ranged metadata v n c q h = h
set_value-Ranged port v none c q h = tt
set_value-Ranged port v (some n) c q h = h
set_value-Ranged queries v none c q h = tt
set_value-Ranged queries v (some n) c q h = h
set_value-Ranged workers v none c q h = tt
set_value-Ranged workers v (some n) c q h =
    elim (Bool-cases (ltb_ℤ n (pos 1) || ltb_ℤ (pos 16) n)) [
      | inl bad ↦ rw bad tt
      | inr good ↦ rw good (ground (arith, good), ground (arith, good))
    ]

alone-Ranged : (f : Option Flag) (c : MySqlConfig) (q : ℤ) → InRange c → Ranged (alone f c q)
unfolding alone set_flag
alone-Ranged none c q h = tt
alone-Ranged (some help) c q h = tt
alone-Ranged (some test_missing_libs) c q h = tt
alone-Ranged (some metadata_database) c q h = h
alone-Ranged (some debug) c q h = h
alone-Ranged (some verbose) c q h = h
alone-Ranged (some metadata_log) c q h = h
alone-Ranged (some sequential) c q h = h
alone-Ranged (some no_bep51) c q h = h

-- What holds of the end of main behind a step, whatever the step gives.
step_rule :
    (s : Step) (k : MySqlConfig → ℤ → Outcome)
    → ((c : MySqlConfig) (q : ℤ) → InRange c → Usable (k c q))
    → Ranged s
    → Usable (elim s [ ends o ↦ o | keeps_on c q ↦ k c q ])
step_rule (ends o) k h r = r
step_rule (keeps_on c q) k h r = h c q r

parse-Usable : (args : List Bytes) (c : MySqlConfig) (q : ℤ) → InRange c → Usable (parse args c q)
unfolding parse
parse-Usable [] c q h = with_defaults-IsUsable c h
parse-Usable (arg ∷ []) c q h =
    step_rule (alone (find arg flag_table) c q) (λ c' q'. starts (with_defaults c') q')
      (λ c' q' h'. with_defaults-IsUsable c' h') (alone-Ranged _ c q h)
parse-Usable (arg ∷ v ∷ rest) c q h =
    let valued = λ (o : Valued).
      step_rule (set_value o v (stoi v) c q) (parse rest) (parse-Usable rest)
        (set_value-Ranged o v (stoi v) c q h) in
    let flag =
      step_rule (alone (find arg flag_table) c q) (parse (v ∷ rest)) (parse-Usable (v ∷ rest))
        (alone-Ranged (find arg flag_table) c q h) in
    elim (find arg valued_table)
      as (λ o. Usable (elim o [
        | some option ↦ elim (set_value option v (stoi v) c q) [
          | ends o ↦ o
          | keeps_on c' q' ↦ parse rest c' q'
        ]
        | none ↦ elim (alone (find arg flag_table) c q) [
          | ends o ↦ o
          | keeps_on c' q' ↦ parse (v ∷ rest) c' q'
        ]
      ])) [ some option ↦ valued option | none ↦ flag ]

-- Whatever the arguments, the crawler starts with 1 to 16 workers and with a server, a user, a
-- password and a database that are not empty, if it starts.
pub main_arguments-IsUsable :
    (args : List Bytes) (c : MySqlConfig) (q : ℤ) → main_arguments args ≡ starts c q → IsUsable c
unfolding main_arguments
main_arguments-IsUsable [] c q e = subst Usable e tt
main_arguments-IsUsable (a ∷ args) c q e =
    subst Usable e (parse-Usable (a ∷ args) new_config (negsuc 0) (refl, refl))
