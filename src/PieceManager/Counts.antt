-- ===== src/PieceManager/Counts.antt =====
-- The counters of updateStatistics against the calls that count.
use dht_crawler.Base.{ℕ, ◌+◌, ◌≡◌, ℤ, int_key, [], ◌∷◌, StdMap, if◌then◌else◌, arith, length}
use dht_crawler.PieceManager.{
  PieceStatus, missing, requested, received, validated, invalid, duplicate, corrupted, expired,
  Piece, Pieces, PieceManager, Statistics, no_statistics,
}
use dht_crawler.PieceManager.Upkeep.{
  count_piece, count_of, count_all, update_statistics, total_of, get_total_piece_count,
}
use dht_crawler.PieceManager.Reads.{
  to_int, has_status, count_status_of, count_status, get_total_piece_count_by_status,
}

-- The counter of a status.
abbrev pub counter : PieceStatus → Statistics → ℕ
counter missing s = s.missing_pieces
counter requested s = s.requested_pieces
counter received s = s.received_pieces
counter validated s = s.validated_pieces
counter invalid s = s.invalid_pieces
counter duplicate s = s.duplicate_pieces
counter corrupted s = s.corrupted_pieces
counter expired s = s.expired_pieces

-- The sum of the eight counters.
abbrev pub sum_of_counters : Statistics → ℕ
sum_of_counters s =
    s.missing_pieces + s.requested_pieces + s.received_pieces + s.validated_pieces
    + s.invalid_pieces + s.duplicate_pieces + s.corrupted_pieces + s.expired_pieces

counter-count_piece :
    (status : PieceStatus) (p : Piece) (s : Statistics)
    → counter status (count_piece p s) ≡ counter status s + (if has_status status p then 1 else 0)
unfolding count_piece has_status to_int
counter-count_piece status p s = ground arith

counter-count_of :
    (status : PieceStatus) (ps : StdMap ℤ Piece) (s : Statistics)
    → counter status (count_of ps s) ≡ counter status s + count_status_of status ps
unfolding count_of count_status_of
counter-count_of status [] s = omega arith
counter-count_of status ((i, p) ∷ ps) s =
    ground (arith, counter-count_of status ps (count_piece p s), counter-count_piece status p s)

counter-count_all :
    (status : PieceStatus) (ps : Pieces) (s : Statistics)
    → counter status (count_all ps s) ≡ counter status s + count_status status ps
unfolding count_all count_status
counter-count_all status [] s = omega arith
counter-count_all status ((h, of_hash) ∷ ps) s =
    omega
      (arith, counter-count_all status ps (count_of of_hash s), counter-count_of status of_hash s)

total-count_piece :
    (p : Piece) (s : Statistics)
    → ((count_piece p s).total_pieces ≡ s.total_pieces + 1)
      × (sum_of_counters (count_piece p s) ≡ sum_of_counters s + 1)
unfolding count_piece
total-count_piece p s = ground arith

total-count_of :
    (ps : StdMap ℤ Piece) (s : Statistics)
    → ((count_of ps s).total_pieces ≡ s.total_pieces + length ps)
      × (sum_of_counters (count_of ps s) ≡ sum_of_counters s + length ps)
unfolding count_of
total-count_of [] s = (omega arith, omega arith)
total-count_of ((i, p) ∷ ps) s =
    let here = total-count_piece p s in
    let rest = total-count_of ps (count_piece p s) in
    (omega (arith, here.0, rest.0), omega (arith, here.1, rest.1))

total-count_all :
    (ps : Pieces) (s : Statistics)
    → ((count_all ps s).total_pieces ≡ s.total_pieces + total_of ps)
      × (sum_of_counters (count_all ps s) ≡ sum_of_counters s + total_of ps)
unfolding count_all total_of
total-count_all [] s = (omega arith, omega arith)
total-count_all ((h, of_hash) ∷ ps) s =
    let here = total-count_of of_hash s in
    let rest = total-count_all ps (count_of of_hash s) in
    (omega (arith, here.0, rest.0), omega (arith, here.1, rest.1))

-- updateStatistics counts for each status what getTotalPieceCountByStatus counts, and in all what
-- getTotalPieceCount counts, which is also the sum of the counters of the eight statuses.
pub update_statistics-counts :
    (m : PieceManager)
    → let s = (update_statistics m).stats in
      ((status : PieceStatus) → counter status s ≡ get_total_piece_count_by_status status m)
      × (s.total_pieces ≡ get_total_piece_count m)
      × (sum_of_counters s ≡ get_total_piece_count m)
unfolding update_statistics get_total_piece_count_by_status get_total_piece_count
update_statistics-counts m =
    let total = total-count_all m.pieces no_statistics in
    (λ status. zeroed status, omega (arith, total.0), omega (arith, total.1))
  where
    zeroed :
        (status : PieceStatus)
        → counter status (count_all m.pieces no_statistics) ≡ count_status status m.pieces
    zeroed status = ground (arith, counter-count_all status m.pieces no_statistics)
