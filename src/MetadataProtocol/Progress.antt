-- ===== src/MetadataProtocol/Progress.antt =====
-- The protocol's life from its construction: nothing sets a request's piece count.
use dht_crawler.Base.{
  ℕ, ◌≡◌, refl, none, Option-cases, false, List, [], ◌∷◌, Bytes, bytes_key, nat_key, lookup,
  move-prune, Values, Values-lookup, Values-insert, Values-prune, inl, inr, arith, ℤ, pos, negsuc,
}
use dht_crawler.MetadataProtocol.{
  MetadataConfig, MetadataRequest, MetadataProtocol, init, request_id, request_metadata,
  store_piece, process_piece, assemble_metadata, is_complete, is_past, mark_expired,
  cleanup_expired_requests, clear_expired_requests, clear_all_requests, update_config,
}

-- The calls that change the state.
pub data Call : Type 0 where
  request : ℕ → Bytes → ℤ → Bytes → Call
  piece : Bytes → ℤ → Bytes → ℤ → Bytes → Call
  cleanup : ℕ → Call
  clear_expired clear_all : Call
  configure : MetadataConfig → Call

unfoldable pub step : Call → MetadataProtocol → MetadataProtocol
step (request now ip port hash) p = (request_metadata now ip port hash p).0
step (piece ip port hash index content) p = (process_piece ip port hash index content p).0
step (cleanup now) p = cleanup_expired_requests now p
step clear_expired p = clear_expired_requests p
step clear_all p = clear_all_requests p
step (configure config) p = update_config config p

unfoldable pub run : List Call → MetadataProtocol → MetadataProtocol
run [] p = p
run (c ∷ cs) p = run cs (step c p)

abbrev Uncounted : MetadataRequest → Type 0
Uncounted r = r.piece_count ≡ 0

record IsStuck (p : MetadataProtocol) : Type 0 where
  uncounted : Values Uncounted p.active_requests
  none_complete : p.completed_requests ≡ []

store_piece-Uncounted :
    (index : ℤ) (content : Bytes) (r : MetadataRequest)
    → Uncounted r
    → store_piece index content r ≡ none
unfolding store_piece
store_piece-Uncounted (negsuc i) content r u = refl
store_piece-Uncounted (pos i) content r u = ground arith

process_piece-IsStuck :
    (ip : Bytes) (port : ℤ) (hash : Bytes) (index : ℤ) (content : Bytes) (p : MetadataProtocol)
    → IsStuck p
    → process_piece ip port hash index content p ≡ (p, false)
unfolding process_piece
process_piece-IsStuck ip port hash index content p s =
    elim (Option-cases (lookup (request_id ip port hash) p.active_requests)) [
      | inl e ↦ rw (process_piece, e) refl
      | inr (r, e) ↦
          let u =
            Values-lookup Uncounted (request_id ip port hash) r p.active_requests s.uncounted e in
          rw (process_piece, e, store_piece-Uncounted index content r u) refl
    ]

request-IsStuck :
    (now : ℕ) (ip : Bytes) (port : ℤ) (hash : Bytes) (p : MetadataProtocol)
    → IsStuck p
    → IsStuck (request_metadata now ip port hash p).0
unfolding request_metadata
request-IsStuck now ip port hash p s =
    elim (Option-cases (lookup (request_id ip port hash) p.active_requests)) [
      | inl e ↦
          rw (request_metadata, e)
            (record {
              uncounted =
                  Values-insert Uncounted (request_id ip port hash) _ p.active_requests refl
                    s.uncounted;
              none_complete = s.none_complete;
            })
      | inr (r, e) ↦ rw (request_metadata, e) s
    ]

step-IsStuck : (c : Call) (p : MetadataProtocol) → IsStuck p → IsStuck (step c p)
unfolding step cleanup_expired_requests clear_expired_requests clear_all_requests update_config
step-IsStuck (request now ip port hash) p s = request-IsStuck now ip port hash p s
step-IsStuck (piece ip port hash index content) p s =
    rw (step, process_piece-IsStuck ip port hash index content p s) s
step-IsStuck (cleanup now) p s = record {
  uncounted =
      rw (move-prune (is_past now) mark_expired p.active_requests p.expired_requests)
        (Values-prune Uncounted (is_past now) p.active_requests s.uncounted);
  none_complete = s.none_complete;
}
step-IsStuck clear_expired p s = record { uncounted = s.uncounted; none_complete = s.none_complete }
step-IsStuck clear_all p s = record { uncounted = tt; none_complete = refl }
step-IsStuck (configure config) p s = record {
  uncounted = s.uncounted;
  none_complete = s.none_complete;
}

run-IsStuck : (cs : List Call) (p : MetadataProtocol) → IsStuck p → IsStuck (run cs p)
unfolding run
run-IsStuck [] p s = s
run-IsStuck (c ∷ cs) p s = run-IsStuck cs (step c p) (step-IsStuck c p s)

run-init-IsStuck : (cs : List Call) (config : MetadataConfig) → IsStuck (run cs (init config))
unfolding init
run-init-IsStuck cs config =
    run-IsStuck cs (init config) (record { uncounted = tt; none_complete = refl })

-- Whatever calls were made since the construction, processPiece refuses every piece and changes
-- nothing, isComplete answers false and assembleMetadata returns no byte.
pub run-refuses :
    (cs : List Call) (config : MetadataConfig) (ip : Bytes) (port : ℤ) (hash : Bytes) (index : ℤ)
    (content : Bytes)
    → (process_piece ip port hash index content (run cs (init config))
        ≡ (run cs (init config), false))
      × (is_complete ip port hash (run cs (init config)) ≡ false)
      × (assemble_metadata ip port hash (run cs (init config)) ≡ [])
unfolding is_complete assemble_metadata lookup
run-refuses cs config ip port hash index content =
    let s = run-init-IsStuck cs config in
    (
      process_piece-IsStuck ip port hash index content (run cs (init config)) s,
      rw (is_complete, s.none_complete) refl,
      rw (assemble_metadata, s.none_complete) refl,
    )
