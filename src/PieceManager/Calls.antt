-- ===== src/PieceManager/Calls.antt =====
-- The calls that add, request and mark a piece, of src/metadata_piece_manager.cpp.
use dht_crawler.Base.{
  ℕ, ◌+◌, ℤ, int_key, [], Option, none, some, Bool, true, false, ◌&&◌, Bytes, bytes_key, StdMap,
  lookup, insert, erase, length, ◌==◌, if◌then◌else◌,
}
use dht_crawler.PieceManager.{
  PieceConfig, requested, received, validated, invalid, duplicate, corrupted, Piece, PieceManager,
  milliseconds, is_valid_piece_data, is_valid_info_hash, is_valid_piece_index,
  calculate_piece_checksum, update_piece_quality, info_pieces, put_piece,
}

-- The piece that addPiece makes.
unfoldable pub new_piece : (Bytes → Bytes) → ℕ → Bytes → ℤ → Bytes → PieceConfig → Piece
new_piece sha1 now info_hash piece_index content config = record {
  info_hash = info_hash;
  piece_index = piece_index;
  status = received;
  content = content;
  checksum = calculate_piece_checksum sha1 content;
  created_at = now;
  updated_at = now;
  expires_at = now + milliseconds config.piece_timeout;
  request_count = 0;
  retry_count = 0;
  last_request = 0;
  quality_score = (1, 1);
  validation_attempts = 0;
  successful_validations = 0;
  failed_validations = 0;
  metadata = [];
}

unfoldable pub add_piece :
    (Bytes → Bytes) → ℕ → Bytes → ℤ → Bytes → PieceManager → PieceManager × Bool
add_piece sha1 now info_hash piece_index content m =
    if is_valid_info_hash info_hash
      && is_valid_piece_index piece_index
      && is_valid_piece_data content m
    then (
      put_piece info_hash piece_index (new_piece sha1 now info_hash piece_index content m.config) m,
      true,
    )
    else (m, false)

-- The piece that requestPiece makes.
unfoldable pub new_request : ℕ → Bytes → ℤ → PieceConfig → Piece
new_request now info_hash piece_index config = record {
  info_hash = info_hash;
  piece_index = piece_index;
  status = requested;
  content = [];
  checksum = [];
  created_at = now;
  updated_at = now;
  expires_at = now + milliseconds config.piece_timeout;
  request_count = 1;
  retry_count = 0;
  last_request = now;
  quality_score = (0, 1);
  validation_attempts = 0;
  successful_validations = 0;
  failed_validations = 0;
  metadata = [];
}

unfoldable pub request_again : ℕ → Piece → Piece
request_again now p = record p {
  status = requested;
  request_count = p.request_count + 1;
  last_request = now;
}

unfoldable pub request_piece : ℕ → Bytes → ℤ → PieceManager → PieceManager × Bool
request_piece now info_hash piece_index m =
    if is_valid_info_hash info_hash && is_valid_piece_index piece_index
    then elim (lookup piece_index (info_pieces info_hash m.pieces)) [
      | none ↦
          (put_piece info_hash piece_index (new_request now info_hash piece_index m.config) m, true)
      | some p ↦ elim p.status [
        | requested ↦ (m, false)
        | _ ↦ (put_piece info_hash piece_index (request_again now p) m, true)
      ]
    ]
    else (m, false)

-- The lines that the four marks share: the access, the search, and the change of the piece found.
unfoldable pub mark_piece : (Piece → Piece) → Bytes → ℤ → PieceManager → PieceManager × Bool
mark_piece change info_hash piece_index m =
    elim (lookup piece_index (info_pieces info_hash m.pieces)) [
      | none ↦
          (record m { pieces = insert info_hash (info_pieces info_hash m.pieces) m.pieces }, false)
      | some p ↦ (put_piece info_hash piece_index (change p) m, true)
    ]

unfoldable pub receive : (Bytes → Bytes) → ℕ → Bytes → PieceConfig → Piece → Piece
receive sha1 now content config p = update_piece_quality true (record p {
  status = received;
  content = content;
  checksum = calculate_piece_checksum sha1 content;
  updated_at = now;
  expires_at = now + milliseconds config.piece_timeout;
})

unfoldable pub mark_piece_received :
    (Bytes → Bytes) → ℕ → Bytes → ℤ → Bytes → PieceManager → PieceManager × Bool
mark_piece_received sha1 now info_hash piece_index content m =
    if is_valid_info_hash info_hash
      && is_valid_piece_index piece_index
      && is_valid_piece_data content m
    then mark_piece (receive sha1 now content m.config) info_hash piece_index m
    else (m, false)

-- Behind the tests of markPieceInvalid, markPieceDuplicate and markPieceCorrupted.
unfoldable pub mark_valid : (Piece → Piece) → Bytes → ℤ → PieceManager → PieceManager × Bool
mark_valid change info_hash piece_index m =
    if is_valid_info_hash info_hash && is_valid_piece_index piece_index
    then mark_piece change info_hash piece_index m
    else (m, false)

unfoldable pub mark_piece_invalid : ℕ → Bytes → ℤ → PieceManager → PieceManager × Bool
mark_piece_invalid now =
    mark_valid (λ p. update_piece_quality false (record p { status = invalid; updated_at = now }))

unfoldable pub mark_piece_duplicate : ℕ → Bytes → ℤ → PieceManager → PieceManager × Bool
mark_piece_duplicate now = mark_valid (λ p. record p { status = duplicate; updated_at = now })

unfoldable pub mark_piece_corrupted : ℕ → Bytes → ℤ → PieceManager → PieceManager × Bool
mark_piece_corrupted now =
    mark_valid (λ p. update_piece_quality false (record p { status = corrupted; updated_at = now }))

-- none: the null pointer.
unfoldable pub get_piece : Bytes → ℤ → PieceManager → Option Piece
get_piece info_hash piece_index m = elim (lookup info_hash m.pieces) [
  | none ↦ none
  | some of_hash ↦ lookup piece_index of_hash
]

-- forcePieceValidation.
unfoldable pub validate_piece : Piece → PieceManager → Piece × Bool
validate_piece p m =
    if is_valid_piece_data p.content m
    then (update_piece_quality true (record p { status = validated }), true)
    else (update_piece_quality false (record p { status = invalid }), false)

unfoldable pub force_piece_validation : Bytes → ℤ → PieceManager → PieceManager × Bool
force_piece_validation info_hash piece_index m = elim (get_piece info_hash piece_index m) [
  | none ↦ (m, false)
  | some p ↦
      if length p.content == 0
      then (m, false)
      else (put_piece info_hash piece_index (validate_piece p m).0 m, (validate_piece p m).1)
]

-- The change of a piece's metadata through the pointer that getPiece answers.
unfoldable pub change_metadata :
    (StdMap Bytes Bytes → StdMap Bytes Bytes) → Bytes → ℤ → PieceManager → PieceManager × Bool
change_metadata change info_hash piece_index m = elim (get_piece info_hash piece_index m) [
  | none ↦ (m, false)
  | some p ↦ (put_piece info_hash piece_index (record p { metadata = change p.metadata }) m, true)
]

unfoldable pub set_piece_metadata : Bytes → ℤ → Bytes → Bytes → PieceManager → PieceManager × Bool
set_piece_metadata info_hash piece_index key value =
    change_metadata (insert key value) info_hash piece_index

unfoldable pub remove_piece_metadata : Bytes → ℤ → Bytes → PieceManager → PieceManager × Bool
remove_piece_metadata info_hash piece_index key = change_metadata (erase key) info_hash piece_index

unfoldable pub clear_piece_metadata : Bytes → ℤ → PieceManager → PieceManager × Bool
clear_piece_metadata = change_metadata (λ _. [])
