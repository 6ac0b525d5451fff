-- ===== src/PieceManager/Reads.antt =====
-- The calls that only read, of src/metadata_piece_manager.cpp.
use dht_crawler.Base.{
  ℕ, ◌+◌, ℤ, int_key, List, [], ◌∷◌, none, some, Bool, true, false, not, Bytes, bytes_key, StdMap,
  lookup, length, ◌==◌, if◌then◌else◌,
}
use dht_crawler.PieceManager.{
  PieceStatus, missing, requested, received, validated, invalid, duplicate, corrupted, expired,
  Piece, Pieces, PieceManager,
}
use dht_crawler.PieceManager.Calls.{get_piece}

-- static_cast<int> of a status.
unfoldable pub to_int : PieceStatus → ℕ
to_int missing = 0
to_int requested = 1
to_int received = 2
to_int validated = 3
to_int invalid = 4
to_int duplicate = 5
to_int corrupted = 6
to_int expired = 7

-- piece->status == status.
unfoldable pub has_status : PieceStatus → Piece → Bool
has_status status p = to_int p.status == to_int status

unfoldable pub get_pieces : Bytes → PieceManager → StdMap ℤ Piece
get_pieces info_hash m = elim (lookup info_hash m.pieces) [ none ↦ [] | some of_hash ↦ of_hash ]

-- The loop of getPiecesByStatus.
unfoldable pub indices_of : PieceStatus → StdMap ℤ Piece → List ℤ
indices_of status [] = []
indices_of status ((i, p) ∷ ps) =
    let rest = indices_of status ps in if has_status status p then i ∷ rest else rest

unfoldable pub get_pieces_by_status : Bytes → PieceStatus → PieceManager → List ℤ
get_pieces_by_status info_hash status m = elim (lookup info_hash m.pieces) [
  | none ↦ []
  | some of_hash ↦ indices_of status of_hash
]

unfoldable pub has_piece : Bytes → ℤ → PieceManager → Bool
has_piece info_hash piece_index m = elim (get_piece info_hash piece_index m) [
  | none ↦ false
  | some p ↦ true
]

unfoldable pub is_piece_complete : Bytes → ℤ → PieceManager → Bool
is_piece_complete info_hash piece_index m = elim (get_piece info_hash piece_index m) [
  | none ↦ false
  | some p ↦ not (length p.content == 0)
]

-- isPieceValid, isPieceMissing and the six like them: the piece is there, with the status.
unfoldable pub is_piece : PieceStatus → Bytes → ℤ → PieceManager → Bool
is_piece status info_hash piece_index m = elim (get_piece info_hash piece_index m) [
  | none ↦ false
  | some p ↦ has_status status p
]

unfoldable pub get_piece_status : Bytes → ℤ → PieceManager → PieceStatus
get_piece_status info_hash piece_index m = elim (get_piece info_hash piece_index m) [
  | none ↦ missing
  | some p ↦ p.status
]

-- getPieceData.
unfoldable pub get_piece_content : Bytes → ℤ → PieceManager → Bytes
get_piece_content info_hash piece_index m = elim (get_piece info_hash piece_index m) [
  | none ↦ []
  | some p ↦ p.content
]

unfoldable pub get_piece_count : Bytes → PieceManager → ℕ
get_piece_count info_hash m = elim (lookup info_hash m.pieces) [
  | none ↦ 0
  | some of_hash ↦ length of_hash
]

unfoldable pub get_piece_count_by_status : Bytes → PieceStatus → PieceManager → ℕ
get_piece_count_by_status info_hash status m = length (get_pieces_by_status info_hash status m)

-- The loops of getTotalPieceCountByStatus.
unfoldable pub count_status_of : PieceStatus → StdMap ℤ Piece → ℕ
count_status_of status [] = 0
count_status_of status ((i, p) ∷ ps) =
    let rest = count_status_of status ps in if has_status status p then 1 + rest else rest

unfoldable pub count_status : PieceStatus → Pieces → ℕ
count_status status [] = 0
count_status status ((hash, of_hash) ∷ ps) = count_status_of status of_hash + count_status status ps

unfoldable pub get_total_piece_count_by_status : PieceStatus → PieceManager → ℕ
get_total_piece_count_by_status status m = count_status status m.pieces

-- The dividend and the divisor of the ratio, which is 0 where there is no piece.
unfoldable pub get_piece_completion_ratio : Bytes → PieceManager → ℕ × ℕ
get_piece_completion_ratio info_hash m =
    let total = get_piece_count info_hash m in
    if total == 0 then (0, 1) else (
      get_piece_count_by_status info_hash received m
          + get_piece_count_by_status info_hash validated m,
      total,
    )

unfoldable pub get_piece_validity_ratio : Bytes → PieceManager → ℕ × ℕ
get_piece_validity_ratio info_hash m =
    let total = get_piece_count info_hash m in
    if total == 0 then (0, 1) else (get_piece_count_by_status info_hash validated m, total)
