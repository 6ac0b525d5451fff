-- ===== src/PieceManager/Integrity.antt =====
-- validatePieceManagerIntegrity over the histories of a piece manager.
use dht_crawler.Base.{
  ℕ, ◌+◌, ◌≤◌, ◌≡◌, refl, sym, subst, ap, Values-impl, ◌∙◌, ℤ, int_key, List, [], ◌∷◌, true, Bytes,
  bytes_key, StdMap, Values, length, arith,
}
use dht_crawler.PieceManager.{
  PieceManager, PieceConfig, Piece, Pieces, init, update_piece_quality, update_config,
}
use dht_crawler.PieceManager.Calls.{new_piece, new_request, request_again, receive}
use dht_crawler.PieceManager.Upkeep.{
  mark_late, monitor_pieces, cleanup_expired_pieces, update_statistics, has_integrity, integrity_of,
  integrity_all, validate_piece_manager_integrity,
}
use dht_crawler.PieceManager.History.{
  Event, calls, configures, config_after, config_end, NeverLowered, monitors, cleans_up, updates,
  event, run, event_config, IsStable,
}
use dht_crawler.PieceManager.Stability.{Every, call-Every, cleanup_all-Values, monitor_all-Values}

-- A piece within the configured size, whose score is at most 1 and whose counters add up.
pub record IsSound (config : PieceConfig) (p : Piece) : Type 0 where
  pub fits : length p.content ≤ config.max_piece_size
  pub score : p.quality_score.0 ≤ p.quality_score.1
  pub counted : p.successful_validations + p.failed_validations ≡ p.validation_attempts

IsSound-IsStable :
    (sha1 : Bytes → Bytes) (now : ℕ) (config : PieceConfig)
    → IsStable sha1 now config (IsSound config)
unfolding new_piece new_request request_again receive update_piece_quality
IsSound-IsStable sha1 now config = record {
  added = λ h i d ok. record { fits = ok; score = omega arith; counted = refl };
  received_ones = λ d p ok v. record {
    fits = ok;
    score = omega (arith, v.counted);
    counted = omega (arith, v.counted);
  };
  requested_ones = λ h i. record { fits = omega arith; score = omega arith; counted = refl };
  again = λ p v. record { fits = v.fits; score = v.score; counted = v.counted };
  invalid_ones = λ p v. record {
    fits = v.fits;
    score = omega (arith, v.counted);
    counted = omega (arith, v.counted);
  };
  duplicate_ones = λ p v. record { fits = v.fits; score = v.score; counted = v.counted };
  corrupted_ones = λ p v. record {
    fits = v.fits;
    score = omega (arith, v.counted);
    counted = omega (arith, v.counted);
  };
  passed = λ p v. record {
    fits = v.fits;
    score = omega (arith, v.counted);
    counted = omega (arith, v.counted);
  };
  refused = λ p v. record {
    fits = v.fits;
    score = omega (arith, v.counted);
    counted = omega (arith, v.counted);
  };
  changed = λ ps p v. record { fits = v.fits; score = v.score; counted = v.counted };
}

mark_late-IsSound :
    (now : ℕ) (config c : PieceConfig) (p : Piece)
    → IsSound config p
    → IsSound config (mark_late now c p)
unfolding mark_late
mark_late-IsSound now config c p v = record {
  fits = ground (arith, v.fits);
  score = ground (arith, v.score);
  counted = ground (arith, v.counted);
}

IsSound-raised :
    (old config : PieceConfig) (p : Piece)
    → old.max_piece_size ≤ config.max_piece_size
    → IsSound old p
    → IsSound config p
IsSound-raised old config p h v = record {
  fits = omega (arith, v.fits, h);
  score = v.score;
  counted = v.counted;
}

event-IsSound :
    (sha1 : Bytes → Bytes) (now : ℕ) (e : Event) (config : PieceConfig) (m : PieceManager)
    → m.config ≡ config
    → config.max_piece_size ≤ (config_after e config).max_piece_size
    → Every (IsSound config) m
    → Every (IsSound (config_after e config)) (event sha1 now e m)
unfolding event monitor_pieces cleanup_expired_pieces update_statistics update_config
event-IsSound sha1 now (configures next) config m same up v =
    Values-impl (Values (IsSound config)) (Values (IsSound next))
      (Values-impl (IsSound config) (IsSound next) (λ p. IsSound-raised config next p up)) m.pieces
      v
event-IsSound sha1 now (calls c) config m same up v =
    call-Every (IsSound config) sha1 now c m
      (subst (λ x. IsStable sha1 now x (IsSound config)) (sym same)
        (IsSound-IsStable sha1 now config))
      v
event-IsSound sha1 now (monitors clock) config m same up v =
    monitor_all-Values (IsSound config) clock m.config m.pieces
      (λ h i p. mark_late-IsSound (clock h i) config m.config p) v
event-IsSound sha1 now (cleans_up clock) config m same up v =
    cleanup_all-Values (IsSound config) clock m.pieces v
event-IsSound sha1 now updates config m same up v = v

run-IsSound :
    (sha1 : Bytes → Bytes) (es : List (ℕ × Event)) (config : PieceConfig) (m : PieceManager)
    → m.config ≡ config
    → NeverLowered (λ c. c.max_piece_size) config es
    → Every (IsSound config) m
    → ((run sha1 es m).config ≡ config_end config es)
      × Every (IsSound (config_end config es)) (run sha1 es m)
unfolding run
run-IsSound sha1 [] config m same up v = (same, v)
run-IsSound sha1 ((now, e) ∷ es) config m same up v =
    run-IsSound sha1 es (config_after e config) (event sha1 now e m)
      (event_config sha1 now e m ∙ ap (config_after e) same) up.1
      (event-IsSound sha1 now e config m same up.0 v)

integrity_of_sound :
    (config : PieceConfig) (ps : StdMap ℤ Piece)
    → Values (IsSound config) ps
    → integrity_of config ps ≡ true
unfolding integrity_of has_integrity
integrity_of_sound config [] v = refl
integrity_of_sound config ((i, p) ∷ ps) v =
    ground (arith, v.0.fits, v.0.score, integrity_of_sound config ps v.1)

integrity_all_sound :
    (config : PieceConfig) (ps : Pieces)
    → Values (Values (IsSound config)) ps
    → integrity_all config ps ≡ true
unfolding integrity_all
integrity_all_sound config [] v = refl
integrity_all_sound config ((h, of_hash) ∷ ps) v =
    ground (arith, integrity_of_sound config of_hash v.0, integrity_all_sound config ps v.1)

-- After any history of calls that change pieces, of loops of the monitor, and of updateConfig that
-- does not lower the largest size of a piece, in any order, from the construction on,
-- validatePieceManagerIntegrity answers true, and every piece is within the size that is configured
-- at the end, with a score of at most 1 and with successful and failed validations that add up to
-- its attempts.
pub run-init-IsSound :
    (sha1 : Bytes → Bytes) (es : List (ℕ × Event)) (config : PieceConfig)
    → NeverLowered (λ c. c.max_piece_size) config es
    → (validate_piece_manager_integrity (run sha1 es (init config)) ≡ true)
      × Every (IsSound (config_end config es)) (run sha1 es (init config))
unfolding init validate_piece_manager_integrity
run-init-IsSound sha1 es config up =
    let (same, v) = run-IsSound sha1 es config (init config) refl up tt in
    (rw same (integrity_all_sound (config_end config es) _ v), v)
