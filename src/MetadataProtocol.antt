-- ===== src/MetadataProtocol.antt =====
-- UTMetadataProtocol of src/ut_metadata_protocol.cpp: the metadata of a torrent, asked of a peer
-- piece by piece. A request stands under its peer's address and the info hash. The clock is an
-- argument, an instant is a number of nanoseconds, the configured timeout is in milliseconds. A
-- piece index is an int and may be negative. The piece count is set to 0 only, and is a ℕ.
pub mod Progress
use dht_crawler.Base.{
  ℕ, zero, suc, ◌+◌, ◌*◌, ◌/◌, ◌%◌, List, [], ◌∷◌, ◌++◌, Option, none, some, Bool, true, false,
  Bytes, bytes, bytes_key, nat_key, StdMap, lookup, insert, erase, move, keys, length, ltb, leb,
  if◌then◌else◌, ℤ, pos, negsuc,
}

pub data RequestStatus : Type 0 where
  requesting completed expired not_found : RequestStatus

pub record MetadataConfig : Type 0 where
  pub request_timeout : ℕ

pub record MetadataRequest : Type 0 where
  pub peer_ip : Bytes
  pub peer_port : ℤ
  pub info_hash : Bytes
  pub status : RequestStatus
  pub created_at : ℕ
  pub expires_at : ℕ
  pub piece_count : ℕ
  pub received_pieces : ℕ
  pub pieces : StdMap ℕ Bytes

pub record MetadataProtocol : Type 0 where
  pub config : MetadataConfig
  pub active_requests : StdMap Bytes MetadataRequest
  pub completed_requests : StdMap Bytes MetadataRequest
  pub expired_requests : StdMap Bytes MetadataRequest

unfoldable pub init : MetadataConfig → MetadataProtocol
init config = record {
  config = config;
  active_requests = [];
  completed_requests = [];
  expired_requests = [];
}

abbrev pub milliseconds : ℕ → ℕ
milliseconds n = n * 1_000_000

-- The decimal digits of n before `rest`, at most `fuel` of them; n + 1 is enough.
unfoldable pub digits : ℕ → ℕ → Bytes → Bytes
digits zero n rest = rest
digits (suc fuel) n rest =
    let more = digits fuel (n / 10) ((48 + n % 10) ∷ rest) in
    if ltb n 10 then (48 + n) ∷ rest else more

-- std::to_string of an int.
unfoldable pub to_string : ℤ → Bytes
to_string (pos n) = digits (suc n) n []
to_string (negsuc n) = bytes "-" ++ digits (suc (suc n)) (suc n) []

-- peer_ip + ":" + std::to_string(peer_port) + ":" + info_hash.
unfoldable pub request_id : Bytes → ℤ → Bytes → Bytes
request_id peer_ip peer_port info_hash =
    peer_ip ++ (bytes ":" ++ (to_string peer_port ++ (bytes ":" ++ info_hash)))

unfoldable pub request_metadata : ℕ → Bytes → ℤ → Bytes → MetadataProtocol → MetadataProtocol × Bool
request_metadata now peer_ip peer_port info_hash p =
    let id = request_id peer_ip peer_port info_hash in
    elim (lookup id p.active_requests) [
      | some _ ↦ (p, false)
      | none ↦ (
        record p {
          active_requests =
              insert id
                (record {
                  peer_ip = peer_ip;
                  peer_port = peer_port;
                  info_hash = info_hash;
                  status = requesting;
                  created_at = now;
                  expires_at = now + milliseconds p.config.request_timeout;
                  piece_count = 0;
                  received_pieces = 0;
                  pieces = [];
                })
                p.active_requests;
        },
        true,
      )
    ]

-- What a piece does to its request: none where the index is out of range or the piece is there.
unfoldable pub store_piece : ℤ → Bytes → MetadataRequest → Option MetadataRequest
store_piece (negsuc i) piece_data r = none
store_piece (pos i) piece_data r = if leb r.piece_count i then none else elim (lookup i r.pieces) [
  | some _ ↦ none
  | none ↦
      some (record r {
        pieces = insert i piece_data r.pieces;
        received_pieces = r.received_pieces + 1;
      })
]

-- A stored piece, and the move of a full request to the completed ones.
unfoldable pub settle : Bytes → MetadataRequest → MetadataProtocol → MetadataProtocol
settle id r p =
    if leb r.piece_count r.received_pieces
    then record p {
      active_requests = erase id p.active_requests;
      completed_requests = insert id (record r { status = completed }) p.completed_requests;
    }
    else record p { active_requests = insert id r p.active_requests }

unfoldable pub process_piece :
    Bytes → ℤ → Bytes → ℤ → Bytes → MetadataProtocol → MetadataProtocol × Bool
process_piece peer_ip peer_port info_hash piece_index piece_data p =
    let id = request_id peer_ip peer_port info_hash in
    elim (lookup id p.active_requests) [
      | none ↦ (p, false)
      | some r ↦ elim (store_piece piece_index piece_data r) [
        | none ↦ (p, false)
        | some r' ↦ (settle id r' p, true)
      ]
    ]

abbrev pub append_piece : Option Bytes → Bytes → Bytes
append_piece none metadata = metadata
append_piece (some piece) metadata = metadata ++ piece

-- The assembling loop, with `left` pieces to go from piece `i`.
unfoldable pub append_pieces : StdMap ℕ Bytes → ℕ → ℕ → Bytes → Bytes
append_pieces pieces zero i metadata = metadata
append_pieces pieces (suc left) i metadata =
    append_pieces pieces left (i + 1) (append_piece (lookup i pieces) metadata)

unfoldable pub assemble_metadata : Bytes → ℤ → Bytes → MetadataProtocol → Bytes
assemble_metadata peer_ip peer_port info_hash p =
    elim (lookup (request_id peer_ip peer_port info_hash) p.completed_requests) [
      | none ↦ []
      | some r ↦ append_pieces r.pieces r.piece_count 0 []
    ]

unfoldable pub is_complete : Bytes → ℤ → Bytes → MetadataProtocol → Bool
is_complete peer_ip peer_port info_hash p =
    elim (lookup (request_id peer_ip peer_port info_hash) p.completed_requests) [
      | none ↦ false
      | some _ ↦ true
    ]

unfoldable pub get_request_status : Bytes → ℤ → Bytes → MetadataProtocol → RequestStatus
get_request_status peer_ip peer_port info_hash p =
    let id = request_id peer_ip peer_port info_hash in
    elim (lookup id p.active_requests) [
      | some r ↦ r.status
      | none ↦ elim (lookup id p.completed_requests) [ some r ↦ r.status | none ↦ not_found ]
    ]

-- The numerator and the denominator of the ratio that is returned as a double.
unfoldable pub get_completion_ratio : Bytes → ℤ → Bytes → MetadataProtocol → ℕ × ℕ
get_completion_ratio peer_ip peer_port info_hash p =
    let id = request_id peer_ip peer_port info_hash in
    let otherwise : ℕ × ℕ = elim (lookup id p.completed_requests) [
      | some _ ↦ (1, 1)
      | none ↦ (0, 1)
    ] in
    elim (lookup id p.active_requests) [
      | none ↦ otherwise
      | some r ↦ if ltb 0 r.piece_count then (r.received_pieces, r.piece_count) else otherwise
    ]

-- now > expires_at.
unfoldable pub is_past : ℕ → MetadataRequest → Bool
is_past now r = ltb r.expires_at now

abbrev pub mark_expired : MetadataRequest → MetadataRequest
mark_expired r = record r { status = expired }

unfoldable pub cleanup_expired_requests : ℕ → MetadataProtocol → MetadataProtocol
cleanup_expired_requests now p =
    let (active, old) = move (is_past now) mark_expired p.active_requests p.expired_requests in
    record p { active_requests = active; expired_requests = old }

unfoldable pub clear_expired_requests : MetadataProtocol → MetadataProtocol
clear_expired_requests p = record p { expired_requests = [] }

unfoldable pub clear_all_requests : MetadataProtocol → MetadataProtocol
clear_all_requests p = record p {
  active_requests = [];
  completed_requests = [];
  expired_requests = [];
}

unfoldable pub update_config : MetadataConfig → MetadataProtocol → MetadataProtocol
update_config config p = record p { config = config }

unfoldable pub get_active_requests : MetadataProtocol → List Bytes
get_active_requests p = keys p.active_requests

unfoldable pub get_completed_requests : MetadataProtocol → List Bytes
get_completed_requests p = keys p.completed_requests

unfoldable pub get_total_request_count : MetadataProtocol → ℕ
get_total_request_count p = length p.active_requests + length p.completed_requests
