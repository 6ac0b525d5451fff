-- ===== src/PieceManager.antt =====
-- MetadataPieceManager of src/metadata_piece_manager.cpp, with the types of its header: the pieces
-- of metadata by infohash and index, each with a status. SHA-1 is an argument. An instant is a number
-- of nanoseconds on the steady clock, and a loop that reads the clock for each piece takes the
-- readings as a function of the piece's keys. A quality score, which the code divides as a double, is
-- the pair of the dividend and the divisor. The configured numbers are not negative. Nothing ever
-- puts an assembly into the table of assemblies, which is left out.
pub mod Calls
pub mod Upkeep
pub mod History
pub mod Stability
pub mod Integrity
pub mod Expiry
pub mod Reads
pub mod Counts
use dht_crawler.Base.{
  ℕ, ◌+◌, ◌*◌, ◌/◌, ℤ, pos, int_key, leb_ℤ, List, [], ◌∷◌, Option, none, some, Bool, true, false,
  not, ◌&&◌, Bytes, bytes_key, StdMap, lookup, insert, erase, length, ltb, leb, ◌==◌, if◌then◌else◌,
}
use dht_crawler.HashFormat.{bytes_to_hex}
use dht_crawler.MonitorThread.{MonitorThread, started, start_thread, stop_thread, thread_is_running}

pub data PieceStatus : Type 0 where
  missing requested received validated invalid duplicate corrupted expired : PieceStatus

pub record PieceConfig : Type 0 where
  pub max_piece_size : ℕ
  pub max_total_size : ℕ
  pub piece_timeout : ℕ

-- make_shared sets to 0 what the code does not set.
pub record Piece : Type 0 where
  pub info_hash : Bytes
  pub piece_index : ℤ
  pub status : PieceStatus
  pub content : Bytes
  pub checksum : Bytes
  pub created_at : ℕ
  pub updated_at : ℕ
  pub expires_at : ℕ
  pub request_count : ℕ
  pub retry_count : ℕ
  pub last_request : ℕ
  pub quality_score : ℕ × ℕ
  pub validation_attempts : ℕ
  pub successful_validations : ℕ
  pub failed_validations : ℕ
  pub metadata : StdMap Bytes Bytes

-- The counters of updateStatistics.
pub record Statistics : Type 0 where
  pub total_pieces : ℕ
  pub missing_pieces : ℕ
  pub requested_pieces : ℕ
  pub received_pieces : ℕ
  pub validated_pieces : ℕ
  pub invalid_pieces : ℕ
  pub duplicate_pieces : ℕ
  pub corrupted_pieces : ℕ
  pub expired_pieces : ℕ

abbrev pub Pieces : Type 0
Pieces = StdMap Bytes (StdMap ℤ Piece)

pub record PieceManager : Type 0 where
  pub config : PieceConfig
  pub pieces : Pieces
  pub stats : Statistics
  pub monitor : MonitorThread

abbrev pub no_statistics : Statistics
no_statistics = record {
  total_pieces = 0;
  missing_pieces = 0;
  requested_pieces = 0;
  received_pieces = 0;
  validated_pieces = 0;
  invalid_pieces = 0;
  duplicate_pieces = 0;
  corrupted_pieces = 0;
  expired_pieces = 0;
}

unfoldable pub init : PieceConfig → PieceManager
init config = record { config = config; pieces = []; stats = no_statistics; monitor = started }

abbrev pub milliseconds : ℕ → ℕ
milliseconds n = n * 1_000_000

-- isValidPieceData and validatePieceData, which are the same.
unfoldable pub is_valid_piece_data : Bytes → PieceManager → Bool
is_valid_piece_data content m =
    not (length content == 0) && leb (length content) m.config.max_piece_size

unfoldable pub is_valid_info_hash : Bytes → Bool
is_valid_info_hash info_hash = length info_hash == 40

unfoldable pub is_valid_piece_index : ℤ → Bool
is_valid_piece_index piece_index = leb_ℤ (pos 0) piece_index

unfoldable pub calculate_piece_checksum : (Bytes → Bytes) → Bytes → Bytes
calculate_piece_checksum sha1 content = bytes_to_hex (sha1 content)

unfoldable pub update_piece_quality : Bool → Piece → Piece
update_piece_quality success p =
    let good = if success then p.successful_validations + 1 else p.successful_validations in
    let bad = if success then p.failed_validations else p.failed_validations + 1 in
    record p {
      successful_validations = good;
      failed_validations = bad;
      validation_attempts = p.validation_attempts + 1;
      quality_score = (good, p.validation_attempts + 1);
    }

-- pieces_[info_hash], which an access makes where it is missing.
unfoldable pub info_pieces : Bytes → Pieces → StdMap ℤ Piece
info_pieces info_hash ps = elim (lookup info_hash ps) [ none ↦ [] | some of_hash ↦ of_hash ]

unfoldable pub put_piece : Bytes → ℤ → Piece → PieceManager → PieceManager
put_piece info_hash piece_index p m = record m {
  pieces = insert info_hash (insert piece_index p (info_pieces info_hash m.pieces)) m.pieces;
}

unfoldable pub update_config : PieceConfig → PieceManager → PieceManager
update_config config m = record m { config = config }

unfoldable pub reset_statistics : PieceManager → PieceManager
reset_statistics m = record m { stats = no_statistics }

unfoldable pub start : PieceManager → PieceManager
start m = record m { monitor = start_thread m.monitor }

unfoldable pub stop : PieceManager → PieceManager
stop m = record m { monitor = stop_thread m.monitor }

unfoldable pub is_running : PieceManager → Bool
is_running m = thread_is_running m.monitor
