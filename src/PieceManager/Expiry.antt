-- ===== src/PieceManager/Expiry.antt =====
-- The status EXPIRED over the histories of a piece manager: monitorPieces sets it, and
-- cleanupExpiredPieces erases the pieces whose expiry has passed.
use dht_crawler.Base.{
  ℕ, ◌+◌, ◌≤◌, ◌<◌, ◌≡◌, ◌≢◌, refl, sym, subst, ap, ◌∙◌, ℤ, int_key, List, [], ◌∷◌, Bytes,
  bytes_key, StdMap, Values, Values-impl, arith,
}
use dht_crawler.PieceManager.{
  PieceManager, PieceConfig, Piece, Pieces, Statistics, no_statistics, init, update_piece_quality,
  update_config, requested, expired, milliseconds,
}
use dht_crawler.PieceManager.Calls.{new_piece, new_request, request_again, receive}
use dht_crawler.PieceManager.Upkeep.{
  Clock, mark_late, monitor_pieces, is_over, cleanup_of, cleanup_all, cleanup_expired_pieces,
  count_piece, count_of, count_all, update_statistics,
}
use dht_crawler.PieceManager.History.{
  Call, call, Event, calls, configures, config_after, config_end, NeverLowered, monitors, cleans_up,
  updates, event, run, event_config, IsStable,
}
use dht_crawler.PieceManager.Stability.{Every, call-Every, cleanup_all-Values, monitor_all-Values}

-- The instants rise. The one of an event is not before any reading of the clock in its loop.
abbrev pub Within : ℕ → Event → Type 0
Within now (monitors clock) = (h : Bytes) (i : ℤ) → clock h i ≤ now
Within now _ = Unit

abbrev pub Ordered : ℕ → List (ℕ × Event) → Type 0
Ordered last [] = Unit
Ordered last ((now, e) ∷ es) = (last ≤ now) × Within now e × Ordered now es

-- The last instant.
abbrev pub end_of : ℕ → List (ℕ × Event) → ℕ
end_of last [] = last
end_of last ((now, e) ∷ es) = end_of now es

unfoldable pub run_calls : (Bytes → Bytes) → List (ℕ × Call) → PieceManager → PieceManager
run_calls sha1 [] m = m
run_calls sha1 ((now, c) ∷ cs) m = run_calls sha1 cs (call sha1 now c m)

-- What holds of a piece at an instant: a requested one expires no later than its request times out,
-- and one that is marked expired is over.
record IsTimed (now : ℕ) (config : PieceConfig) (p : Piece) : Type 0 where
  near : p.expires_at ≤ now + milliseconds config.piece_timeout
  asked : p.status ≡ requested → p.expires_at ≤ p.last_request + milliseconds config.piece_timeout
  late : p.status ≡ expired → p.expires_at < now

IsTimed-later :
    (now later : ℕ) (config : PieceConfig) (p : Piece)
    → now ≤ later
    → IsTimed now config p
    → IsTimed later config p
IsTimed-later now later config p h v = record {
  near = omega (arith, v.near);
  asked = v.asked;
  late = λ e. omega (arith, v.late e);
}

IsTimed-IsStable :
    (sha1 : Bytes → Bytes) (now : ℕ) (config : PieceConfig)
    → IsStable sha1 now config (IsTimed now config)
unfolding new_piece new_request request_again receive update_piece_quality
IsTimed-IsStable sha1 now config = record {
  added = λ h i d ok. record { near = omega arith; asked = λ e. absurd cc; late = λ e. absurd cc };
  received_ones =
      λ d p ok v. record { near = omega arith; asked = λ e. absurd cc; late = λ e. absurd cc };
  requested_ones =
      λ h i. record { near = omega arith; asked = λ e. omega arith; late = λ e. absurd cc };
  again = λ p v. record { near = v.near; asked = λ e. v.near; late = λ e. absurd cc };
  invalid_ones = λ p v. record { near = v.near; asked = λ e. absurd cc; late = λ e. absurd cc };
  duplicate_ones = λ p v. record { near = v.near; asked = λ e. absurd cc; late = λ e. absurd cc };
  corrupted_ones = λ p v. record { near = v.near; asked = λ e. absurd cc; late = λ e. absurd cc };
  passed = λ p v. record { near = v.near; asked = λ e. absurd cc; late = λ e. absurd cc };
  refused = λ p v. record { near = v.near; asked = λ e. absurd cc; late = λ e. absurd cc };
  changed = λ ps p v. record { near = v.near; asked = v.asked; late = v.late };
}

IsTimed-raised :
    (now : ℕ) (old config : PieceConfig) (p : Piece)
    → old.piece_timeout ≤ config.piece_timeout
    → IsTimed now old p
    → IsTimed now config p
IsTimed-raised now old config p h v = record {
  near = omega (arith, v.near, longer);
  asked = λ e. omega (arith, v.asked e, longer);
  late = v.late;
}
  where
    longer : milliseconds old.piece_timeout ≤ milliseconds config.piece_timeout
    longer = omega (arith, h)

mark_late-IsTimed :
    (at now : ℕ) (config : PieceConfig) (p : Piece)
    → at ≤ now
    → IsTimed now config p
    → IsTimed now config (mark_late at config p)
unfolding mark_late
mark_late-IsTimed at now config p h v = record {
  near = ground (arith, v.near);
  asked = ground (arith, v.asked);
  late = ground (arith, v.asked, v.late);
}

event-IsTimed :
    (sha1 : Bytes → Bytes) (last now : ℕ) (e : Event) (config : PieceConfig) (m : PieceManager)
    → m.config ≡ config
    → last ≤ now
    → Within now e
    → config.piece_timeout ≤ (config_after e config).piece_timeout
    → Every (IsTimed last config) m
    → Every (IsTimed now (config_after e config)) (event sha1 now e m)
unfolding event monitor_pieces cleanup_expired_pieces update_statistics update_config
event-IsTimed sha1 last now e config m same rises w up v = by_event e w up
  where
    sooner : Every (IsTimed now config) m
    sooner =
        Values-impl (Values (IsTimed last config)) (Values (IsTimed now config))
          (Values-impl (IsTimed last config) (IsTimed now config)
            (λ p. IsTimed-later last now config p rises))
          m.pieces v

    by_event :
        (e : Event)
        → Within now e
        → config.piece_timeout ≤ (config_after e config).piece_timeout
        → Every (IsTimed now (config_after e config)) (event sha1 now e m)
    by_event (configures next) w up =
        Values-impl (Values (IsTimed now config)) (Values (IsTimed now next))
          (Values-impl (IsTimed now config) (IsTimed now next)
            (λ p. IsTimed-raised now config next p up))
          m.pieces sooner
    by_event (calls c) w up =
        call-Every (IsTimed now config) sha1 now c m
          (subst (λ x. IsStable sha1 now x (IsTimed now config)) (sym same)
            (IsTimed-IsStable sha1 now config))
          sooner
    by_event (monitors clock) w up =
        monitor_all-Values (IsTimed now config) clock m.config m.pieces
          (λ h i p q.
            subst (λ x. IsTimed now config (mark_late (clock h i) x p)) (sym same)
              (mark_late-IsTimed (clock h i) now config p (w h i) q))
          sooner
    by_event (cleans_up clock) w up = cleanup_all-Values (IsTimed now config) clock m.pieces sooner
    by_event updates w up = sooner

run-IsTimed :
    (sha1 : Bytes → Bytes) (last : ℕ) (es : List (ℕ × Event)) (config : PieceConfig)
    (m : PieceManager)
    → m.config ≡ config
    → Ordered last es
    → NeverLowered (λ c. c.piece_timeout) config es
    → Every (IsTimed last config) m
    → Every (IsTimed (end_of last es) (config_end config es)) (run sha1 es m)
unfolding run
run-IsTimed sha1 last [] config m same o up v = v
run-IsTimed sha1 last ((now, e) ∷ es) config m same o up v =
    run-IsTimed sha1 now es (config_after e config) (event sha1 now e m)
      (event_config sha1 now e m ∙ ap (config_after e) same) o.2 up.1
      (event-IsTimed sha1 last now e config m same o.0 o.1 up.0 v)

abbrev NotExpired : Piece → Type 0
NotExpired p = p.status ≢ expired

NotExpired-IsStable :
    (sha1 : Bytes → Bytes) (now : ℕ) (config : PieceConfig) → IsStable sha1 now config NotExpired
unfolding new_piece new_request request_again receive update_piece_quality
NotExpired-IsStable sha1 now config = record {
  added = λ h i d ok e. absurd cc;
  received_ones = λ d p ok v e. absurd cc;
  requested_ones = λ h i e. absurd cc;
  again = λ p v e. absurd cc;
  invalid_ones = λ p v e. absurd cc;
  duplicate_ones = λ p v e. absurd cc;
  corrupted_ones = λ p v e. absurd cc;
  passed = λ p v e. absurd cc;
  refused = λ p v e. absurd cc;
  changed = λ ps p v. v;
}

cleanup_of-NotExpired :
    (now : ℕ) (clock : ℤ → ℕ) (config : PieceConfig) (ps : StdMap ℤ Piece)
    → ((i : ℤ) → now ≤ clock i)
    → Values (IsTimed now config) ps
    → Values NotExpired (cleanup_of clock ps)
unfolding cleanup_of is_over
cleanup_of-NotExpired now clock config [] k v = tt
cleanup_of-NotExpired now clock config ((i, p) ∷ ps) k v =
    ground (arith, v.0.late, k i, cleanup_of-NotExpired now clock config ps k v.1)

cleanup_all-NotExpired :
    (now : ℕ) (clock : Clock) (config : PieceConfig) (ps : Pieces)
    → ((h : Bytes) (i : ℤ) → now ≤ clock h i)
    → Values (Values (IsTimed now config)) ps
    → Values (Values NotExpired) (cleanup_all clock ps)
unfolding cleanup_all
cleanup_all-NotExpired now clock config [] k v = tt
cleanup_all-NotExpired now clock config ((h, of_hash) ∷ ps) k v = (
  cleanup_of-NotExpired now (clock h) config of_hash (k h) v.0,
  cleanup_all-NotExpired now clock config ps k v.1,
)

run_calls-NotExpired :
    (sha1 : Bytes → Bytes) (cs : List (ℕ × Call)) (m : PieceManager)
    → Every NotExpired m
    → Every NotExpired (run_calls sha1 cs m)
unfolding run_calls
run_calls-NotExpired sha1 [] m v = v
run_calls-NotExpired sha1 ((now, c) ∷ cs) m v =
    run_calls-NotExpired sha1 cs (call sha1 now c m)
      (call-Every NotExpired sha1 now c m (NotExpired-IsStable sha1 now m.config) v)

count_of-NotExpired :
    (ps : StdMap ℤ Piece) (s : Statistics)
    → Values NotExpired ps
    → (count_of ps s).expired_pieces ≡ s.expired_pieces
unfolding count_of count_piece
count_of-NotExpired [] s v = refl
count_of-NotExpired ((i, p) ∷ ps) s v =
    ground (arith, v.0, count_of-NotExpired ps (count_piece p s) v.1)

count_all-NotExpired :
    (ps : Pieces) (s : Statistics)
    → Values (Values NotExpired) ps
    → (count_all ps s).expired_pieces ≡ s.expired_pieces
unfolding count_all
count_all-NotExpired [] s v = refl
count_all-NotExpired ((h, of_hash) ∷ ps) s v =
    count_all-NotExpired ps (count_of of_hash s) v.1 ∙ count_of-NotExpired of_hash s v.0

-- The monitor's statistics never report an expired piece: after any history of calls that change
-- pieces, of loops of the monitor, and of updateConfig that does not lower the piece timeout, at
-- instants that do not fall, then a cleanupExpiredPieces that reads the clock no earlier than the
-- history's end, and any such calls behind it, updateStatistics counts 0 of them. Each piece that
-- monitorPieces marks EXPIRED is over at its own expiry, so the cleanup erases it.
pub cleanup-expired_none :
    (sha1 : Bytes → Bytes) (es : List (ℕ × Event)) (config : PieceConfig) (clock : Clock)
    (cs : List (ℕ × Call))
    → Ordered 0 es
    → NeverLowered (λ c. c.piece_timeout) config es
    → ((h : Bytes) (i : ℤ) → end_of 0 es ≤ clock h i)
    → (update_statistics (
        run_calls sha1 cs
          (cleanup_expired_pieces clock (run sha1 es (init config))))).stats.expired_pieces
      ≡ 0
unfolding init update_statistics cleanup_expired_pieces
cleanup-expired_none sha1 es config clock cs o up k =
    let timed = run-IsTimed sha1 0 es config (init config) refl o up tt in
    let cleaned = cleanup_expired_pieces clock (run sha1 es (init config)) in
    count_all-NotExpired _ no_statistics (
      run_calls-NotExpired sha1 cs cleaned (
        cleanup_all-NotExpired (end_of 0 es) clock (config_end config es)
          (run sha1 es (init config)).pieces k timed))
