-- ===== src/PieceManager/Upkeep.antt =====
-- The monitor's loops, the statistics, and the calls that drop pieces, of
-- src/metadata_piece_manager.cpp.
use dht_crawler.Base.{
  ℕ, ◌+◌, ◌*◌, ◌/◌, ℤ, int_key, [], ◌∷◌, none, some, Bool, true, false, ◌&&◌, Bytes, bytes_key,
  StdMap, lookup, insert, erase, length, ltb, leb, if◌then◌else◌,
}
use dht_crawler.MonitorThread.{wake}
use dht_crawler.PieceManager.{
  missing, requested, received, validated, invalid, duplicate, corrupted, expired, Piece, Pieces,
  PieceManager, Statistics, no_statistics, milliseconds, PieceConfig,
}

-- The readings of the clock in a loop over the pieces.
abbrev pub Clock : Type 0
Clock = Bytes → ℤ → ℕ

-- now - last_request > milliseconds(piece_timeout).
unfoldable pub mark_late : ℕ → PieceConfig → Piece → Piece
mark_late now config p = elim p.status [
  | requested ↦
      if ltb (p.last_request + milliseconds config.piece_timeout) now
      then record p { status = expired }
      else p
  | _ ↦ p
]

unfoldable pub monitor_of : (ℤ → ℕ) → PieceConfig → StdMap ℤ Piece → StdMap ℤ Piece
monitor_of clock config [] = []
monitor_of clock config ((i, p) ∷ ps) =
    (i, mark_late (clock i) config p) ∷ monitor_of clock config ps

unfoldable pub monitor_all : Clock → PieceConfig → Pieces → Pieces
monitor_all clock config [] = []
monitor_all clock config ((hash, of_hash) ∷ ps) =
    (hash, monitor_of (clock hash) config of_hash) ∷ monitor_all clock config ps

unfoldable pub monitor_pieces : Clock → PieceManager → PieceManager
monitor_pieces clock m = record m { pieces = monitor_all clock m.config m.pieces }

-- isPieceExpired of a piece: now > expires_at.
unfoldable pub is_over : ℕ → Piece → Bool
is_over now p = ltb p.expires_at now

-- The loop that erases the pieces that are over.
unfoldable pub cleanup_of : (ℤ → ℕ) → StdMap ℤ Piece → StdMap ℤ Piece
cleanup_of clock [] = []
cleanup_of clock ((i, p) ∷ ps) =
    let rest = cleanup_of clock ps in if is_over (clock i) p then rest else (i, p) ∷ rest

unfoldable pub cleanup_all : Clock → Pieces → Pieces
cleanup_all clock [] = []
cleanup_all clock ((hash, of_hash) ∷ ps) =
    (hash, cleanup_of (clock hash) of_hash) ∷ cleanup_all clock ps

unfoldable pub cleanup_expired_pieces : Clock → PieceManager → PieceManager
cleanup_expired_pieces clock m = record m { pieces = cleanup_all clock m.pieces }

-- A piece in the counters.
unfoldable pub count_piece : Piece → Statistics → Statistics
count_piece p s =
    let s = record s { total_pieces = s.total_pieces + 1 } in
    elim p.status [
      | missing ↦ record s { missing_pieces = s.missing_pieces + 1 }
      | requested ↦ record s { requested_pieces = s.requested_pieces + 1 }
      | received ↦ record s { received_pieces = s.received_pieces + 1 }
      | validated ↦ record s { validated_pieces = s.validated_pieces + 1 }
      | invalid ↦ record s { invalid_pieces = s.invalid_pieces + 1 }
      | duplicate ↦ record s { duplicate_pieces = s.duplicate_pieces + 1 }
      | corrupted ↦ record s { corrupted_pieces = s.corrupted_pieces + 1 }
      | expired ↦ record s { expired_pieces = s.expired_pieces + 1 }
    ]

unfoldable pub count_of : StdMap ℤ Piece → Statistics → Statistics
count_of [] s = s
count_of ((i, p) ∷ ps) s = count_of ps (count_piece p s)

unfoldable pub count_all : Pieces → Statistics → Statistics
count_all [] s = s
count_all ((hash, of_hash) ∷ ps) s = count_all ps (count_of of_hash s)

unfoldable pub update_statistics : PieceManager → PieceManager
update_statistics m = record m { stats = count_all m.pieces no_statistics }

-- The sizes of the inner maps.
unfoldable pub total_of : Pieces → ℕ
total_of [] = 0
total_of ((hash, of_hash) ∷ ps) = length of_hash + total_of ps

unfoldable pub get_total_piece_count : PieceManager → ℕ
get_total_piece_count m = total_of m.pieces

unfoldable pub clear_pieces : Bytes → PieceManager → PieceManager × ℕ
clear_pieces info_hash m = elim (lookup info_hash m.pieces) [
  | none ↦ (m, 0)
  | some of_hash ↦ (record m { pieces = erase info_hash m.pieces }, length of_hash)
]

unfoldable pub clear_all_pieces : PieceManager → PieceManager × ℕ
clear_all_pieces m = (record m { pieces = [] }, total_of m.pieces)

-- The counter counts the pieces erased.
unfoldable pub count_over_of : (ℤ → ℕ) → StdMap ℤ Piece → ℕ
count_over_of clock [] = 0
count_over_of clock ((i, p) ∷ ps) =
    let rest = count_over_of clock ps in if is_over (clock i) p then 1 + rest else rest

unfoldable pub count_over : Clock → Pieces → ℕ
count_over clock [] = 0
count_over clock ((hash, of_hash) ∷ ps) = count_over_of (clock hash) of_hash + count_over clock ps

unfoldable pub clear_expired_pieces : Clock → PieceManager → PieceManager × ℕ
clear_expired_pieces clock m =
    (record m { pieces = cleanup_all clock m.pieces }, count_over clock m.pieces)

unfoldable pub force_piece_cleanup : Bytes → ℤ → PieceManager → PieceManager × Bool
force_piece_cleanup info_hash piece_index m = elim (lookup info_hash m.pieces) [
  | none ↦ (m, false)
  | some of_hash ↦ elim (lookup piece_index of_hash) [
    | none ↦ (m, false)
    | some p ↦ (record m { pieces = insert info_hash (erase piece_index of_hash) m.pieces }, true)
  ]
]

-- The test of validatePieceManagerIntegrity, whose quality score is never negative here.
unfoldable pub has_integrity : PieceConfig → Piece → Bool
has_integrity config p =
    leb (length p.content) config.max_piece_size && leb p.quality_score.0 p.quality_score.1

unfoldable pub integrity_of : PieceConfig → StdMap ℤ Piece → Bool
integrity_of config [] = true
integrity_of config ((i, p) ∷ ps) = has_integrity config p && integrity_of config ps

unfoldable pub integrity_all : PieceConfig → Pieces → Bool
integrity_all config [] = true
integrity_all config ((hash, of_hash) ∷ ps) = integrity_of config of_hash && integrity_all config ps

unfoldable pub validate_piece_manager_integrity : PieceManager → Bool
validate_piece_manager_integrity m = integrity_all m.config m.pieces

-- A maximal piece size of 0, by which the code divides, does not arise.
unfoldable pub has_too_many : PieceManager → Bool
has_too_many m =
    ltb (m.config.max_total_size / m.config.max_piece_size * 10) (get_total_piece_count m)

-- The two parts of repairPieceManager.
unfoldable pub clear_broken : PieceManager → PieceManager × ℕ
clear_broken m = if validate_piece_manager_integrity m then (m, 0) else clear_all_pieces m

unfoldable pub drop_surplus : Clock → PieceManager → PieceManager × ℕ
drop_surplus clock m = if has_too_many m then clear_expired_pieces clock m else (m, 0)

unfoldable pub repair_piece_manager : Clock → PieceManager → PieceManager × ℕ
repair_piece_manager clock m =
    let (cleared, count) = clear_broken m in
    let (left, dropped) = drop_surplus clock cleared in (left, count + dropped)

-- A round of the monitor thread, from the end of its wait, with no call of another thread within.
unfoldable pub monitor_round : Clock → Clock → PieceManager → PieceManager
monitor_round clock later m =
    let (thread, runs) = wake m.monitor in
    let woken = record m { monitor = thread } in
    if runs
    then update_statistics (cleanup_expired_pieces later (monitor_pieces clock woken))
    else woken
