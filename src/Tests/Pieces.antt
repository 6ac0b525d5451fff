-- ===== src/Tests/Pieces.antt =====
-- The manager of metadata pieces.
use dht_crawler.Base.{
  lookup, insert, Bytes-discrete, ℕ_discrete, ℤ_discrete, refl, ℕ, ◌≡◌, pos, List, [], ◌∷◌, true,
  Bytes, bytes, arith,
}
use dht_crawler.PieceManager.{
  PieceConfig, PieceManager, init, put_piece, info_pieces, update_piece_quality, is_valid_info_hash,
  is_valid_piece_index, is_valid_piece_data, update_config,
}
use dht_crawler.PieceManager.Calls.{
  request_piece, mark_piece_received, mark_piece, receive, new_request,
}
use dht_crawler.PieceManager.Upkeep.{
  monitor_pieces, monitor_all, monitor_of, mark_late, count_all, count_of, count_piece, Clock,
  cleanup_expired_pieces, update_statistics, validate_piece_manager_integrity,
}
use dht_crawler.PieceManager.History.{
  Call, adds, receives, requests, validates, Event, calls, monitors, updates, run, event, call,
  configures,
}
use dht_crawler.PieceManager.Stability.{Every}
use dht_crawler.PieceManager.Integrity.{IsSound, run-init-IsSound}
use dht_crawler.PieceManager.Expiry.{Ordered, run_calls, cleanup-expired_none}

-- Stands for SHA-1.
abbrev digest : Bytes → Bytes
digest content = content

abbrev info_hash : Bytes
info_hash = bytes "0123456789abcdef0123456789abcdef01234567"

abbrev config : PieceConfig
config = record { max_piece_size = 16; max_total_size = 64; piece_timeout = 30 }

-- A longer timeout and larger pieces.
abbrev wider : PieceConfig
wider = record { max_piece_size = 32; max_total_size = 64; piece_timeout = 40 }

abbrev late_clock : Clock
late_clock h i = 90_000_000

-- A piece is requested and arrives, another is requested and times out.
abbrev history : List (ℕ × Event)
history =
    (1, calls (requests info_hash (pos 0)))
    ∷ (2, calls (receives info_hash (pos 0) (bytes "d1:ae")))
    ∷ (3, calls (requests info_hash (pos 1)))
    ∷ (90_000_000, monitors late_clock)
    ∷ (90_000_001, updates)
    ∷ (90_000_001, configures wider)
    ∷ []

abbrev more_calls : List (ℕ × Call)
more_calls =
    (90_000_003, adds info_hash (pos 2) (bytes "e"))
    ∷ (90_000_004, validates info_hash (pos 2))
    ∷ []

abbrev manager : PieceManager
manager = run digest history (init config)

run-init-IsSound_example :
    (validate_piece_manager_integrity (run digest history (init config)) ≡ true)
    × Every (IsSound wider) (run digest history (init config))
run-init-IsSound_example =
    run-init-IsSound digest history config
      (omega arith, (omega arith, (omega arith, (omega arith, (omega arith, (omega arith, tt))))))

history-Ordered : Ordered 0 history
history-Ordered = (
  omega arith,
  tt,
  (
    omega arith,
    tt,
    (omega arith, tt, (omega arith, λ h i. omega arith, (omega arith, tt, (omega arith, tt, tt)))),
  ),
)

cleanup-expired_none_example :
    (update_statistics (
      run_calls digest more_calls (
        cleanup_expired_pieces
          (λ h i. 90_000_002)
          (run digest history (init config))))).stats.expired_pieces
    ≡ 0
cleanup-expired_none_example =
    cleanup-expired_none digest history config (λ h i. 90_000_002) more_calls history-Ordered
      (omega arith, (omega arith, (omega arith, (omega arith, (omega arith, (omega arith, tt))))))
      (λ h i. omega arith)

-- The timed-out piece is marked, and counted by the updates that comes before a cleanup.
one_expired : manager.stats.expired_pieces ≡ 1
unfolding run event call update_config request_piece mark_piece_received mark_piece receive
    new_request put_piece info_pieces init update_statistics monitor_pieces monitor_all monitor_of
    mark_late count_all count_of count_piece update_piece_quality is_valid_info_hash
    is_valid_piece_index is_valid_piece_data lookup insert Bytes-discrete ℕ_discrete ℤ_discrete
one_expired = refl
