-- ===== src/Libtorrent.antt =====
-- libtorrent as the crawler uses it: a parameter. A session's state is a value, and a call that
-- changes it returns the next one. Nothing is assumed of what the calls answer.
use dht_crawler.Base.{Option, none, some, Bytes, bytes, ◌++◌, Bool, if◌then◌else◌}

-- torrent_flags that the crawler sets.
pub data TorrentFlag : Type 0 where
  auto_managed duplicate_is_error seed_mode : TorrentFlag

pub record Libtorrent : Type 1 where
  pub Session : Type 0
  pub Handle : Type 0
  -- add_torrent_params.
  pub Params : Type 0
  -- none: the error code is set.
  pub parse_magnet_uri : Bytes → Option Params
  pub set_save_path : Bytes → Params → Params
  pub set_flag : TorrentFlag → Params → Params
  -- none: an exception.
  pub add_torrent : Session → Params → Session × Option Handle
  pub remove_torrent : Session → Handle → Session
  pub is_valid : Handle → Bool
  -- The DHT calls. The Boolean is false where the call throws.
  pub dht_get_peers : Session → Bytes → Session × Bool
  pub dht_get_item : Session → Bytes → Session × Bool

-- The part that process_single_request and process_metadata_request share: build the magnet link,
-- parse it, set the parameters and add the torrent. none: the link does not parse, an exception, or
-- a handle that is not valid.
unfoldable pub start_torrent :
    (lt : Libtorrent) → lt.Session → Bytes → lt.Session × Option lt.Handle
start_torrent lt s hex_hash =
    elim (lt.parse_magnet_uri (bytes "magnet:?xt=urn:btih:" ++ hex_hash)) [
      | none ↦ (s, none)
      | some parsed ↦
          let params = lt.set_flag seed_mode (
            lt.set_flag duplicate_is_error
              (lt.set_flag auto_managed (lt.set_save_path (bytes ".") parsed))) in
          let (s', result) = lt.add_torrent s params in
          elim result [
            | none ↦ (s', none)
            | some handle ↦ (s', if lt.is_valid handle then some handle else none)
          ]
    ]

-- The DHT calls of a session alone.
pub record DhtSession : Type 1 where
  pub Session : Type 0
  pub dht_get_peers : Session → Bytes → Session × Bool
  pub dht_get_item : Session → Bytes → Session × Bool

abbrev pub dht_of : Libtorrent → DhtSession
dht_of lt = record {
  Session = lt.Session;
  dht_get_peers = lt.dht_get_peers;
  dht_get_item = lt.dht_get_item;
}
