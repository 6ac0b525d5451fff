-- ===== src/PieceManager/Stability.antt =====
-- A predicate on pieces that every change keeps outlives every call of a piece manager.
use dht_crawler.Base.{
  ℕ, ◌≤◌, ◌≡◌, ℤ, int_key, inl, inr, [], ◌∷◌, some, Option-cases, Bool-cases, true, false, Bytes,
  bytes_key, StdMap, lookup, Values, Values-lookup, Values-insert, Values-erase, length, arith,
}
use dht_crawler.PieceManager.{
  PieceManager, PieceConfig, Piece, Pieces, invalid, validated, info_pieces, put_piece,
  is_valid_piece_data, update_piece_quality,
}
use dht_crawler.PieceManager.Calls.{
  new_piece, add_piece, new_request, request_again, request_piece, mark_piece, mark_valid, receive,
  mark_piece_received, mark_piece_invalid, mark_piece_duplicate, mark_piece_corrupted, get_piece,
  validate_piece, force_piece_validation, change_metadata,
}
use dht_crawler.PieceManager.History.{
  Call, call, IsStable, adds, receives, requests, invalidates, duplicates, corrupts, validates,
  cleans, changes, clears, clears_all, clears_expired, repairs,
}
use dht_crawler.PieceManager.Upkeep.{
  clear_broken, drop_surplus, Clock, mark_late, monitor_of, monitor_all, cleanup_of, cleanup_all,
  clear_pieces, clear_all_pieces, clear_expired_pieces, force_piece_cleanup, repair_piece_manager,
}

module _ (P : Piece → Type 0) where
  -- Every piece satisfies the predicate.
  abbrev pub Every : PieceManager → Type 0
  Every m = Values (Values P) m.pieces

  info_pieces-Values :
      (h : Bytes) (ps : Pieces) → Values (Values P) ps → Values P (info_pieces h ps)
  unfolding info_pieces
  info_pieces-Values h ps v = elim (Option-cases (lookup h ps)) [
    | inl e ↦ rw (e, info_pieces) tt
    | inr (of_hash, e) ↦ rw (e, info_pieces) (Values-lookup (Values P) h of_hash ps v e)
  ]

  put_piece-Every :
      (h : Bytes) (i : ℤ) (p : Piece) (m : PieceManager) → P p → Every m → Every (put_piece h i p m)
  unfolding put_piece
  put_piece-Every h i p m q v =
      Values-insert (Values P) h _ m.pieces
        (Values-insert P i p (info_pieces h m.pieces) q (info_pieces-Values h m.pieces v)) v

  mark_piece-Every :
      (f : Piece → Piece) (h : Bytes) (i : ℤ) (m : PieceManager)
      → ((p : Piece) → P p → P (f p))
      → Every m
      → Every (mark_piece f h i m).0
  unfolding mark_piece
  mark_piece-Every f h i m k v =
      let inner = info_pieces-Values h m.pieces v in
      elim (Option-cases (lookup i (info_pieces h m.pieces))) [
        | inl e ↦ rw (e, mark_piece) (Values-insert (Values P) h _ m.pieces inner v)
        | inr (p, e) ↦
            rw (e, mark_piece) (put_piece-Every h i (f p) m (k p (Values-lookup P i p _ inner e)) v)
      ]

  mark_valid-Every :
      (f : Piece → Piece) (h : Bytes) (i : ℤ) (m : PieceManager)
      → ((p : Piece) → P p → P (f p))
      → Every m
      → Every (mark_valid f h i m).0
  unfolding mark_valid
  mark_valid-Every f h i m k v = ground (arith, v, mark_piece-Every f h i m k v)

  cleanup_of-Values :
      (clock : ℤ → ℕ) (ps : StdMap ℤ Piece) → Values P ps → Values P (cleanup_of clock ps)
  unfolding cleanup_of
  cleanup_of-Values clock [] v = tt
  cleanup_of-Values clock ((i, p) ∷ ps) v = ground (arith, v.0, cleanup_of-Values clock ps v.1)

  pub cleanup_all-Values :
      (clock : Clock) (ps : Pieces)
      → Values (Values P) ps
      → Values (Values P) (cleanup_all clock ps)
  unfolding cleanup_all
  cleanup_all-Values clock [] v = tt
  cleanup_all-Values clock ((h, of_hash) ∷ ps) v =
      (cleanup_of-Values (clock h) of_hash v.0, cleanup_all-Values clock ps v.1)

  get_piece-Every :
      (h : Bytes) (i : ℤ) (p : Piece) (m : PieceManager) → Every m → get_piece h i m ≡ some p → P p
  unfolding get_piece
  get_piece-Every h i p m v e = elim (Option-cases (lookup h m.pieces)) [
    | inl none_found ↦ absurd (ground (arith, e, none_found))
    | inr (of_hash, found) ↦
        Values-lookup P i p of_hash (Values-lookup (Values P) h of_hash m.pieces v found)
          (ground (arith, e, found))
  ]

  request_piece-Every :
      (now : ℕ) (h : Bytes) (i : ℤ) (m : PieceManager)
      → P (new_request now h i m.config)
      → ((p : Piece) → P p → P (request_again now p))
      → Every m
      → Every (request_piece now h i m).0
  unfolding request_piece
  request_piece-Every now h i m fresh k v =
      elim (Option-cases (lookup i (info_pieces h m.pieces))) [
        | inl e ↦
            let put = put_piece-Every h i (new_request now h i m.config) m fresh v in
            ground (arith, e, v, put)
        | inr (p, e) ↦
            let old = Values-lookup P i p _ (info_pieces-Values h m.pieces v) e in
            let put = put_piece-Every h i (request_again now p) m (k p old) v in
            ground (arith, e, v, put)
      ]

  force_piece_validation-Every :
      (h : Bytes) (i : ℤ) (m : PieceManager)
      → ((p : Piece) → P p → P (update_piece_quality true (record p { status = validated })))
      → ((p : Piece) → P p → P (update_piece_quality false (record p { status = invalid })))
      → Every m
      → Every (force_piece_validation h i m).0
  unfolding force_piece_validation validate_piece
  force_piece_validation-Every h i m good bad v = elim (Option-cases (get_piece h i m)) [
    | inl e ↦ ground (arith, e, v)
    | inr (p, e) ↦
        let old = get_piece-Every h i p m v e in
        let passed = put_piece-Every h i _ m (good p old) v in
        let refused = put_piece-Every h i _ m (bad p old) v in ground (arith, e, v, passed, refused)
  ]

  change_metadata-Every :
      (f : StdMap Bytes Bytes → StdMap Bytes Bytes) (h : Bytes) (i : ℤ) (m : PieceManager)
      → ((ps : StdMap Bytes Bytes) (p : Piece) → P p → P (record p { metadata = ps }))
      → Every m
      → Every (change_metadata f h i m).0
  unfolding change_metadata
  change_metadata-Every f h i m k v = elim (Option-cases (get_piece h i m)) [
    | inl e ↦ ground (arith, e, v)
    | inr (p, e) ↦
        let put = put_piece-Every h i _ m (k (f p.metadata) p (get_piece-Every h i p m v e)) v in
        ground (arith, e, put)
  ]

  force_piece_cleanup-Every :
      (h : Bytes) (i : ℤ) (m : PieceManager) → Every m → Every (force_piece_cleanup h i m).0
  unfolding force_piece_cleanup
  force_piece_cleanup-Every h i m v = elim (Option-cases (lookup h m.pieces)) [
    | inl e ↦ ground (arith, e, v)
    | inr (of_hash, e) ↦
        let inner = Values-lookup (Values P) h of_hash m.pieces v e in
        let put = Values-insert (Values P) h _ m.pieces (Values-erase P i of_hash inner) v in
        ground (arith, e, v, put)
  ]

  clear_pieces-Every : (h : Bytes) (m : PieceManager) → Every m → Every (clear_pieces h m).0
  unfolding clear_pieces
  clear_pieces-Every h m v = ground (arith, v, Values-erase (Values P) h m.pieces v)

  clear_broken-Every : (m : PieceManager) → Every m → Every (clear_broken m).0
  unfolding clear_broken clear_all_pieces
  clear_broken-Every m v = ground (arith, v)

  drop_surplus-Every : (clock : Clock) (m : PieceManager) → Every m → Every (drop_surplus clock m).0
  unfolding drop_surplus clear_expired_pieces
  drop_surplus-Every clock m v = ground (arith, v, cleanup_all-Values clock m.pieces v)

  repair-Every :
      (clock : Clock) (m : PieceManager) → Every m → Every (repair_piece_manager clock m).0
  unfolding repair_piece_manager
  repair-Every clock m v = drop_surplus-Every clock (clear_broken m).0 (clear_broken-Every m v)

  valid_data_le :
      (d : Bytes) (m : PieceManager)
      → is_valid_piece_data d m ≡ true
      → length d ≤ m.config.max_piece_size
  unfolding is_valid_piece_data
  valid_data_le d m h = ground arith

  add_piece-Every :
      (sha1 : Bytes → Bytes) (now : ℕ) (h : Bytes) (i : ℤ) (d : Bytes) (m : PieceManager)
      → (length d ≤ m.config.max_piece_size → P (new_piece sha1 now h i d m.config))
      → Every m
      → Every (add_piece sha1 now h i d m).0
  unfolding add_piece
  add_piece-Every sha1 now h i d m k v = elim (Bool-cases (is_valid_piece_data d m)) [
    | inl ok ↦
        let put =
          put_piece-Every h i (new_piece sha1 now h i d m.config) m (k (valid_data_le d m ok)) v in
        ground (arith, ok, v, put)
    | inr bad ↦ ground (arith, bad, v)
  ]

  mark_piece_received-Every :
      (sha1 : Bytes → Bytes) (now : ℕ) (h : Bytes) (i : ℤ) (d : Bytes) (m : PieceManager)
      → (length d ≤ m.config.max_piece_size → (p : Piece) → P p → P (receive sha1 now d m.config p))
      → Every m
      → Every (mark_piece_received sha1 now h i d m).0
  unfolding mark_piece_received
  mark_piece_received-Every sha1 now h i d m k v = elim (Bool-cases (is_valid_piece_data d m)) [
    | inl ok ↦
        let put =
          mark_piece-Every (receive sha1 now d m.config) h i m (k (valid_data_le d m ok)) v in
        ground (arith, ok, v, put)
    | inr bad ↦ ground (arith, bad, v)
  ]

  -- A stable predicate on the pieces outlives every call.
  pub call-Every :
      (sha1 : Bytes → Bytes) (now : ℕ) (c : Call) (m : PieceManager)
      → IsStable sha1 now m.config P
      → Every m
      → Every (call sha1 now c m)
  unfolding call mark_piece_invalid mark_piece_duplicate mark_piece_corrupted clear_all_pieces
      clear_expired_pieces
  call-Every sha1 now (adds h i d) m s v = add_piece-Every sha1 now h i d m (s.added h i d) v
  call-Every sha1 now (receives h i d) m s v =
      mark_piece_received-Every sha1 now h i d m (λ ok p. s.received_ones d p ok) v
  call-Every sha1 now (requests h i) m s v =
      request_piece-Every now h i m (s.requested_ones h i) s.again v
  call-Every sha1 now (invalidates h i) m s v = mark_valid-Every _ h i m s.invalid_ones v
  call-Every sha1 now (duplicates h i) m s v = mark_valid-Every _ h i m s.duplicate_ones v
  call-Every sha1 now (corrupts h i) m s v = mark_valid-Every _ h i m s.corrupted_ones v
  call-Every sha1 now (validates h i) m s v =
      force_piece_validation-Every h i m s.passed s.refused v
  call-Every sha1 now (cleans h i) m s v = force_piece_cleanup-Every h i m v
  call-Every sha1 now (changes f h i) m s v = change_metadata-Every f h i m s.changed v
  call-Every sha1 now (clears h) m s v = clear_pieces-Every h m v
  call-Every sha1 now clears_all m s v = tt
  call-Every sha1 now (clears_expired clock) m s v = cleanup_all-Values clock m.pieces v
  call-Every sha1 now (repairs clock) m s v = repair-Every clock m v

monitor_of-Values :
    (P : Piece → Type 0) (clock : ℤ → ℕ) (config : PieceConfig) (ps : StdMap ℤ Piece)
    → ((i : ℤ) (p : Piece) → P p → P (mark_late (clock i) config p))
    → Values P ps
    → Values P (monitor_of clock config ps)
unfolding monitor_of
monitor_of-Values P clock config [] k v = tt
monitor_of-Values P clock config ((i, p) ∷ ps) k v =
    (k i p v.0, monitor_of-Values P clock config ps k v.1)

pub monitor_all-Values :
    (P : Piece → Type 0) (clock : Clock) (config : PieceConfig) (ps : Pieces)
    → ((h : Bytes) (i : ℤ) (p : Piece) → P p → P (mark_late (clock h i) config p))
    → Values (Values P) ps
    → Values (Values P) (monitor_all clock config ps)
unfolding monitor_all
monitor_all-Values P clock config [] k v = tt
monitor_all-Values P clock config ((h, of_hash) ∷ ps) k v = (
  monitor_of-Values P (clock h) config of_hash (k h) v.0,
  monitor_all-Values P clock config ps k v.1,
)
