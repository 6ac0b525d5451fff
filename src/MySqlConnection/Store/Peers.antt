-- ===== src/MySqlConnection/Store/Peers.antt =====
-- How storeTorrent reads the peers that handlePeerReply writes.
use dht_crawler.Base.{
  ℕ, pos, ◌≡◌, refl, [], ◌∷◌, ◌++◌, map, some, false, Bytes, bytes, ◌==◌, All, arith, ap, ◌∙◌,
}
use mathlib.Core.List.{append_assoc}
use dht_crawler.MetadataProtocol.{to_string}
use dht_crawler.Crawler.Handlers.{peer_strings}
use dht_crawler.MySqlConnection.{split_peer}

abbrev pub NoColon : Bytes → Type 0
NoColon = All (λ c. (c == b':') ≡ false)

split_peer_first : (a rest : Bytes) → NoColon a → split_peer (a ++ b':' ∷ rest) ≡ some (a, rest)
unfolding split_peer
split_peer_first [] rest n = refl
split_peer_first (c ∷ a) rest n = ground (arith, n.0, split_peer_first a rest n.1)

-- An address without a colon is told from its port. An IPv6 address is cut at its first colon, and
-- the rest of it goes into the statement as a part of the port.
pub split_peer-peer_strings :
    (a b : Bytes) (port : ℕ)
    → NoColon a
    → (map split_peer (peer_strings ((a, port) ∷ [])) ≡ some (a, to_string (pos port)) ∷ [])
      × (map split_peer (peer_strings ((a ++ b':' ∷ b, port) ∷ []))
          ≡ some (a, b ++ (bytes ":" ++ to_string (pos port))) ∷ [])
unfolding peer_strings
split_peer-peer_strings a b port n = (
  ap (λ r. r ∷ []) (split_peer_first a (to_string (pos port)) n),
  ap (λ r. r ∷ [])
      (ap split_peer (append_assoc a (b':' ∷ b) (bytes ":" ++ to_string (pos port)))
        ∙ split_peer_first a (b ++ (bytes ":" ++ to_string (pos port))) n),
)
