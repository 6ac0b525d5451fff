-- ===== src/PieceManager/History.antt =====
-- The histories of a piece manager: calls and loops of the monitor in any order, at rising instants.
use dht_crawler.Base.{
  ℕ, ◌≤◌, ◌≡◌, refl, ℤ, int_key, List, [], ◌∷◌, true, false, Bytes, bytes_key, StdMap, length,
  arith,
}
use dht_crawler.PieceManager.{
  PieceManager, PieceConfig, Piece, invalid, duplicate, corrupted, validated, put_piece,
  update_piece_quality, update_config,
}
use dht_crawler.PieceManager.Calls.{
  new_piece, add_piece, new_request, request_again, request_piece, mark_piece, mark_valid, receive,
  mark_piece_received, mark_piece_invalid, mark_piece_duplicate, mark_piece_corrupted,
  force_piece_validation, change_metadata,
}
use dht_crawler.PieceManager.Upkeep.{
  clear_broken, drop_surplus, Clock, monitor_pieces, cleanup_expired_pieces, update_statistics,
  clear_pieces, clear_all_pieces, clear_expired_pieces, force_piece_cleanup, repair_piece_manager,
}

-- The calls that change a piece or drop some. The three that change a piece's metadata are one, with
-- the change as an argument.
pub data Call : Type 0 where
  adds receives : Bytes → ℤ → Bytes → Call
  requests invalidates duplicates corrupts validates cleans : Bytes → ℤ → Call
  changes : (StdMap Bytes Bytes → StdMap Bytes Bytes) → Bytes → ℤ → Call
  clears : Bytes → Call
  clears_all : Call
  clears_expired repairs : Clock → Call

unfoldable pub call : (Bytes → Bytes) → ℕ → Call → PieceManager → PieceManager
call sha1 now (adds h i d) m = (add_piece sha1 now h i d m).0
call sha1 now (receives h i d) m = (mark_piece_received sha1 now h i d m).0
call sha1 now (requests h i) m = (request_piece now h i m).0
call sha1 now (invalidates h i) m = (mark_piece_invalid now h i m).0
call sha1 now (duplicates h i) m = (mark_piece_duplicate now h i m).0
call sha1 now (corrupts h i) m = (mark_piece_corrupted now h i m).0
call sha1 now (validates h i) m = (force_piece_validation h i m).0
call sha1 now (cleans h i) m = (force_piece_cleanup h i m).0
call sha1 now (changes f h i) m = (change_metadata f h i m).0
call sha1 now (clears h) m = (clear_pieces h m).0
call sha1 now clears_all m = (clear_all_pieces m).0
call sha1 now (clears_expired clock) m = (clear_expired_pieces clock m).0
call sha1 now (repairs clock) m = (repair_piece_manager clock m).0

-- A predicate that every change of a piece at an instant keeps.
pub record IsStable (sha1 : Bytes → Bytes) (now : ℕ) (config : PieceConfig) (P : Piece → Type 0)
    : Type 0 where
  pub added :
      (h : Bytes) (i : ℤ) (d : Bytes)
      → length d ≤ config.max_piece_size
      → P (new_piece sha1 now h i d config)
  pub received_ones :
      (d : Bytes) (p : Piece)
      → length d ≤ config.max_piece_size
      → P p
      → P (receive sha1 now d config p)
  pub requested_ones : (h : Bytes) (i : ℤ) → P (new_request now h i config)
  pub again : (p : Piece) → P p → P (request_again now p)
  pub invalid_ones :
      (p : Piece)
      → P p
      → P (update_piece_quality false (record p { status = invalid; updated_at = now }))
  pub duplicate_ones : (p : Piece) → P p → P (record p { status = duplicate; updated_at = now })
  pub corrupted_ones :
      (p : Piece)
      → P p
      → P (update_piece_quality false (record p { status = corrupted; updated_at = now }))
  pub passed : (p : Piece) → P p → P (update_piece_quality true (record p { status = validated }))
  pub refused : (p : Piece) → P p → P (update_piece_quality false (record p { status = invalid }))
  pub changed : (ps : StdMap Bytes Bytes) (p : Piece) → P p → P (record p { metadata = ps })

-- What happens to a piece manager: a call, a new configuration, or one of the loops of its monitor.
pub data Event : Type 0 where
  calls : Call → Event
  configures : PieceConfig → Event
  monitors cleans_up : Clock → Event
  updates : Event

unfoldable pub event : (Bytes → Bytes) → ℕ → Event → PieceManager → PieceManager
event sha1 now (calls c) m = call sha1 now c m
event sha1 now (configures config) m = update_config config m
event sha1 now (monitors clock) m = monitor_pieces clock m
event sha1 now (cleans_up clock) m = cleanup_expired_pieces clock m
event sha1 now updates m = update_statistics m

unfoldable pub run : (Bytes → Bytes) → List (ℕ × Event) → PieceManager → PieceManager
run sha1 [] m = m
run sha1 ((now, e) ∷ es) m = run sha1 es (event sha1 now e m)

-- A call leaves the configuration.
pub call_config :
    (sha1 : Bytes → Bytes) (now : ℕ) (c : Call) (m : PieceManager)
    → (call sha1 now c m).config ≡ m.config
unfolding call add_piece mark_piece_received mark_piece mark_valid request_piece mark_piece_invalid
    mark_piece_duplicate mark_piece_corrupted force_piece_validation force_piece_cleanup
    change_metadata clear_pieces clear_all_pieces clear_expired_pieces repair_piece_manager
    clear_broken drop_surplus put_piece
call_config sha1 now (adds h i d) m = ground arith
call_config sha1 now (receives h i d) m = ground arith
call_config sha1 now (requests h i) m = ground arith
call_config sha1 now (invalidates h i) m = ground arith
call_config sha1 now (duplicates h i) m = ground arith
call_config sha1 now (corrupts h i) m = ground arith
call_config sha1 now (validates h i) m = ground arith
call_config sha1 now (cleans h i) m = ground arith
call_config sha1 now (changes f h i) m = ground arith
call_config sha1 now (clears h) m = ground arith
call_config sha1 now clears_all m = refl
call_config sha1 now (clears_expired clock) m = refl
call_config sha1 now (repairs clock) m = ground arith

-- The configuration behind an event, and behind a history.
abbrev pub config_after : Event → PieceConfig → PieceConfig
config_after (configures config) old = config
config_after _ old = old

abbrev pub config_end : PieceConfig → List (ℕ × Event) → PieceConfig
config_end config [] = config
config_end config ((now, e) ∷ es) = config_end (config_after e config) es

-- No configuration of the history lowers the field.
abbrev pub NeverLowered : (PieceConfig → ℕ) → PieceConfig → List (ℕ × Event) → Type 0
NeverLowered field config [] = Unit
NeverLowered field config ((now, e) ∷ es) =
    (field config ≤ field (config_after e config)) × NeverLowered field (config_after e config) es

pub event_config :
    (sha1 : Bytes → Bytes) (now : ℕ) (e : Event) (m : PieceManager)
    → (event sha1 now e m).config ≡ config_after e m.config
unfolding event monitor_pieces cleanup_expired_pieces update_statistics update_config
event_config sha1 now (calls c) m = call_config sha1 now c m
event_config sha1 now (configures config) m = refl
event_config sha1 now (monitors clock) m = refl
event_config sha1 now (cleans_up clock) m = refl
event_config sha1 now updates m = refl
