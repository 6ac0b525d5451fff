-- ===== src/Tests.antt =====
-- Concrete runs of the components, and instances of the theorems at concrete inputs.
mod Hashes
mod Requests
mod Rates
mod Managers
mod Protocols
mod Pieces
mod Routing
mod Dht
mod Indexer
mod Input
mod Crawl
use dht_crawler.Base.{ℕ, List, [], ◌∷◌, ◌++◌, some, true, Bytes, bytes}
use dht_crawler.Libtorrent.{Libtorrent, DhtSession}
use dht_crawler.TokenManager.{Hmac}

-- A libtorrent that accepts every torrent. Its session is the list of the magnet links added.
abbrev pub toy_libtorrent : Libtorrent
toy_libtorrent = record {
  Session = List Bytes;
  Handle = Bytes;
  Params = Bytes;
  parse_magnet_uri = λ uri. some uri;
  set_save_path = λ path params. params;
  set_flag = λ flag params. params;
  add_torrent = λ s params. (params ∷ s, some params);
  remove_torrent = λ s handle. s;
  is_valid = λ handle. true;
  dht_get_peers = λ s target. (target ∷ s, true);
  dht_get_item = λ s target. (target ∷ s, true);
}

-- A DHT session that answers every call, and lists the targets.
abbrev pub toy_dht : DhtSession
toy_dht = record {
  Session = List Bytes;
  dht_get_peers = λ s target. (target ∷ s, true);
  dht_get_item = λ s target. (target ∷ s, true);
}

-- The key before the data stands for the keyed hash.
abbrev pub toy_hmac : Hmac
toy_hmac key text = key ++ text

abbrev pub hex_hash : Bytes
hex_hash = bytes "0123456789abcdef0123456789abcdef01234567"

abbrev pub base32_hash : Bytes
base32_hash = bytes "abcdefghijklmnopqrstuvwxyz234567"

abbrev pub binary_hash : Bytes
binary_hash =
    0 ∷ 1 ∷ 2 ∷ 3 ∷ 4 ∷ 5 ∷ 6 ∷ 7 ∷ 8 ∷ 9 ∷ 250 ∷ 251 ∷ 252 ∷ 253 ∷ 254 ∷ 255 ∷ 16 ∷ 17 ∷ 18 ∷ 19
    ∷ []
