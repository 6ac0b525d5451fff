-- ===== src/Crawler/MetadataOnly/Batches.antt =====
-- Which batches of the database the loop asks for.
use dht_crawler.Base.{
  ℕ, zero, suc, ◌≤◌, ◌<◌, ◌≡◌, refl, sym, ap, ◌∙◌, List, [], ◌∷◌, true, false, ◌&&◌, not, Bytes,
  drop, length, arith, subst,
}
use dht_crawler.Libtorrent.{Libtorrent}
use dht_crawler.Crawler.{Database, Crawler}
use dht_crawler.Crawler.Metadata.{process_alerts}
use dht_crawler.Crawler.MetadataOnly.{
  MetadataRound, append_batch, load_metadata_database_batch, request_all, last_fifty, mark_late,
  refill, is_done, metadata_round, metadata_loop,
}
use dht_crawler.Crawler.MetadataOnly.Steady.{
  steady_part, Steady, process_alerts-Steady, mark_late-Steady,
}

drop-all : (n : ℕ) (hs : List Bytes) → length hs ≤ n → drop n hs ≡ []
unfolding drop
drop-all zero [] h = refl
drop-all zero (x ∷ hs) h = absurd (omega arith)
drop-all (suc n) [] h = refl
drop-all (suc n) (x ∷ hs) h = drop-all n hs (omega arith)

-- With fewer than 50 hashes the index wraps, and the loop has no round.
last_fifty_short : (hs : List Bytes) → length hs < 50 → last_fifty hs ≡ []
unfolding last_fifty
last_fifty_short hs h = drop-all _ hs (omega arith)

module _ {lt : Libtorrent} {db : Database} where
  before_refill-Steady :
      (r : MetadataRound lt) (c : Crawler lt db)
      → Steady c (mark_late r.now (process_alerts r.now r.alerts c))
  before_refill-Steady r c = mark_late-Steady r.now _ ∙ process_alerts-Steady r.now r.alerts c

  refill_long : (now : ℕ) (c : Crawler lt db) → 50 ≤ length c.metadata_hash_list → refill now c ≡ c
  unfolding refill
  refill_long now c h = ground arith

  metadata_round-Steady :
      (r : MetadataRound lt) (c : Crawler lt db)
      → 50 ≤ length c.metadata_hash_list
      → Steady c (metadata_round r c)
  unfolding metadata_round
  metadata_round-Steady r c h =
      let s = before_refill-Steady r c in
      let long = subst (λ (hs : List Bytes). 50 ≤ length hs) (sym (ap (λ p. p.0) s)) h in
      ap steady_part (refill_long r.now _ long) ∙ s

  metadata_loop-Steady :
      (rs : List (MetadataRound lt)) (c : Crawler lt db)
      → 50 ≤ length c.metadata_hash_list
      → Steady c (metadata_loop rs c)
  unfolding metadata_loop
  metadata_loop-Steady [] c h = refl
  metadata_loop-Steady (r ∷ rs) c h =
      let s = metadata_round-Steady r c h in
      let long = subst (λ (hs : List Bytes). 50 ≤ length hs) (sym (ap (λ p. p.0) s)) h in
      let later = metadata_loop-Steady rs (metadata_round r c) long ∙ s in
      elim (c.running && not c.shutdown_requested)
        as (λ b. Steady c (elim b [
          | false ↦ c
          | true ↦ elim (is_done r.elapsed_seconds (metadata_round r c)) [
            | true ↦ metadata_round r c
            | false ↦ metadata_loop rs (metadata_round r c)
          ]
        ])) [
          | false ↦ refl
          | true ↦
              elim (is_done r.elapsed_seconds (metadata_round r c))
                as (λ b. Steady c (elim b [
                  | true ↦ metadata_round r c
                  | false ↦ metadata_loop rs (metadata_round r c)
                ])) [ true ↦ s | false ↦ later ]
        ]

  -- With 50 hashes or more in the list the loop loads no further batch, in any rounds: the list and
  -- the offset stay as they are.
  pub metadata_loop_long :
      (rs : List (MetadataRound lt)) (c : Crawler lt db)
      → 50 ≤ length c.metadata_hash_list
      → ((metadata_loop rs c).metadata_hash_list ≡ c.metadata_hash_list)
        × ((metadata_loop rs c).metadata_db_offset ≡ c.metadata_db_offset)
  metadata_loop_long rs c h =
      let s = metadata_loop-Steady rs c h in (ap (λ p. p.0) s, ap (λ p. p.1) s)

  -- The refill where the database has no further record.
  refill_empty :
      (now : ℕ) (c : Crawler lt db)
      → c.metadata_database_mode ≡ true
      → length c.metadata_hash_list < 50
      → (db.get_torrents_with_missing_metadata c.mysql 100 c.metadata_db_offset).1 ≡ []
      → (refill now c).shutdown_requested ≡ true
  unfolding refill load_metadata_database_batch append_batch request_all
  refill_empty now c mode few gone = ground (arith, last_fifty_short c.metadata_hash_list few)

  pub metadata_loop_stopped :
      (rs : List (MetadataRound lt)) (c : Crawler lt db)
      → c.shutdown_requested ≡ true
      → metadata_loop rs c ≡ c
  unfolding metadata_loop
  metadata_loop_stopped [] c e = refl
  metadata_loop_stopped (r ∷ rs) c e = ground arith

  metadata_round_empty :
      (r : MetadataRound lt) (c : Crawler lt db)
      → c.metadata_database_mode ≡ true
      → length c.metadata_hash_list < 50
      → ((m : db.Connection)
          → (db.get_torrents_with_missing_metadata m 100 c.metadata_db_offset).1 ≡ [])
      → (metadata_round r c).shutdown_requested ≡ true
  unfolding metadata_round
  metadata_round_empty r c mode few gone =
      let s = before_refill-Steady r c in
      let b = mark_late r.now (process_alerts r.now r.alerts c) in
      refill_empty r.now b (ap (λ p. p.2) s ∙ mode)
        (subst (λ (hs : List Bytes). length hs < 50) (sym (ap (λ p. p.0) s)) few)
        (subst (λ n. (db.get_torrents_with_missing_metadata b.mysql 100 n).1 ≡ [])
          (sym (ap (λ p. p.1) s)) (gone b.mysql))

  -- In database mode, where fewer than 50 hashes were loaded and the database has no record behind
  -- them, the loop requests its own shutdown in its first round and ends with it, whatever was
  -- fetched.
  pub metadata_loop_few :
      (r : MetadataRound lt) (rs : List (MetadataRound lt)) (c : Crawler lt db)
      → c.metadata_database_mode ≡ true
      → (c.running && not c.shutdown_requested) ≡ true
      → length c.metadata_hash_list < 50
      → ((m : db.Connection)
          → (db.get_torrents_with_missing_metadata m 100 c.metadata_db_offset).1 ≡ [])
      → (metadata_loop (r ∷ rs) c ≡ metadata_round r c)
        × ((metadata_round r c).shutdown_requested ≡ true)
  unfolding metadata_loop
  metadata_loop_few r rs c mode on few gone =
      let stopped = metadata_round_empty r c mode few gone in
      (ground (arith, metadata_loop_stopped rs (metadata_round r c) stopped), stopped)

  -- A batch that leaves the list shorter than 50 is loaded, and none of it is requested.
  pub refill_short :
      (now : ℕ) (c : Crawler lt db)
      → c.metadata_database_mode ≡ true
      → length c.metadata_hash_list < 50
      → length (load_metadata_database_batch c).metadata_hash_list < 50
      → refill now c ≡ load_metadata_database_batch c
  unfolding refill request_all
  refill_short now c mode few still =
      ground (arith, last_fifty_short (load_metadata_database_batch c).metadata_hash_list still)
