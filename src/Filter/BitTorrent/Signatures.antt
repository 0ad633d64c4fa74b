-- ===== src/Filter/BitTorrent/Signatures.antt =====
-- What the BitTorrent filter drops, by ports and by the first bytes of the payload.
use ftpn.Packet.{IpPacket, is_tcp, is_udp, dst_port, tcp_payload, udp_payload}
use ftpn.Filter.Manager.{Direction}
use ftpn.Filter.BitTorrent.{
  starts_with, is_peer_port, is_dht, is_utp_syn, is_udp_tracker, is_peer_handshake, is_udp_torrent,
  query_signature, response_signature, error_signature, connect_signature, handshake_signature,
  when_payload, bit_torrent,
}
use ftpn.Prelude.{
  ℕ, ◌≤◌, ◌≡◌, refl, ap₂, ◌↔◌, ◌⊎◌, Bool, true, false, ◌||◌, Option, none, some, List, [], ◌∷◌,
  ◌++◌, arith, length, byte, read_u16_be,
}

-- The payload is the signature and something behind it.
pub record Begins (payload signature : List ℕ) : Type 0 where
  pub rest : List ℕ
  pub parts : payload ≡ signature ++ rest

starts_with_sound :
    (payload signature : List ℕ) → starts_with payload signature ≡ true → Begins payload signature
unfolding starts_with
starts_with_sound payload [] h = record { rest = payload; parts = refl }
starts_with_sound [] (c ∷ signature) h = absurd (ground arith)
starts_with_sound (b ∷ payload) (c ∷ signature) h =
    let r = starts_with_sound payload signature (ground arith) in
    record { rest = r.rest; parts = ap₂ ◌∷◌ (ground arith) r.parts }

starts_with_complete : (signature rest : List ℕ) → starts_with (signature ++ rest) signature ≡ true
unfolding starts_with
starts_with_complete [] rest = refl
starts_with_complete (c ∷ signature) rest = ground (arith, starts_with_complete signature rest)

starts_with_iff :
    (payload signature : List ℕ) → (starts_with payload signature ≡ true) ↔ Begins payload signature
starts_with_iff payload signature =
    (starts_with_sound payload signature, λ b. rw b.parts (starts_with_complete signature b.rest))

-- A datagram of at least 20 bytes: a SYN of version 1 with a known extension that acknowledges
-- nothing.
abbrev UtpSyn : List ℕ → Type 0
UtpSyn payload =
    (20 ≤ length payload)
    × (byte payload 0 ≡ 0x41)
    × (byte payload 1 ≤ 2)
    × (read_u16_be payload 18 ≡ 0)

abbrev Dht : List ℕ → Type 0
Dht payload =
    Begins payload query_signature
    ⊎ Begins payload response_signature
    ⊎ Begins payload error_signature

abbrev TorrentDatagram : Option (List ℕ) → Type 0
TorrentDatagram none = ⊥
TorrentDatagram (some payload) = Dht payload ⊎ UtpSyn payload ⊎ Begins payload connect_signature

abbrev Handshake : Option (List ℕ) → Type 0
Handshake none = ⊥
Handshake (some payload) = Begins payload handshake_signature

is_peer_handshake_iff :
    (payload : Option (List ℕ))
    → (when_payload is_peer_handshake payload ≡ true) ↔ Handshake payload
unfolding is_peer_handshake
is_peer_handshake_iff none = ground arith
is_peer_handshake_iff (some payload) = starts_with_iff payload handshake_signature

is_utp_syn_iff : (payload : List ℕ) → (is_utp_syn payload ≡ true) ↔ UtpSyn payload
unfolding is_utp_syn
is_utp_syn_iff payload = ground arith

one_of_three_iff {ℓ κ ν} :
    {P : Type ℓ} {Q : Type κ} {R : Type ν} (a b c : Bool)
    → (a ≡ true) ↔ P
    → (b ≡ true) ↔ Q
    → (c ≡ true) ↔ R
    → ((a || b || c) ≡ true) ↔ (P ⊎ Q ⊎ R)
one_of_three_iff a b c p q r = ground (arith, p, q, r)

is_dht_iff : (payload : List ℕ) → (is_dht payload ≡ true) ↔ Dht payload
unfolding is_dht
is_dht_iff payload =
    one_of_three_iff _ _ _ (starts_with_iff payload query_signature)
      (starts_with_iff payload response_signature) (starts_with_iff payload error_signature)

is_udp_tracker_iff :
    (payload : List ℕ) → (is_udp_tracker payload ≡ true) ↔ Begins payload connect_signature
unfolding is_udp_tracker
is_udp_tracker_iff payload = starts_with_iff payload connect_signature

datagram_iff :
    (payload : Option (List ℕ))
    → (when_payload is_udp_torrent payload ≡ true) ↔ TorrentDatagram payload
datagram_iff none = ground arith
datagram_iff (some payload) =
    one_of_three_iff _ _ _ (is_dht_iff payload) (is_utp_syn_iff payload)
      (is_udp_tracker_iff payload)

is_peer_port_iff : (port : ℕ) → (is_peer_port port ≡ true) ↔ ((6881 ≤ port) × (port ≤ 6889))
unfolding is_peer_port
is_peer_port_iff port = ground arith

abbrev Torrent : IpPacket → Type 0
Torrent p =
    (is_tcp p ≡ true) × (((6881 ≤ dst_port p) × (dst_port p ≤ 6889)) ⊎ Handshake (tcp_payload p))
    ⊎ (is_tcp p ≡ false)
      × (is_udp p ≡ true)
      × (((6881 ≤ dst_port p) × (dst_port p ≤ 6889)) ⊎ TorrentDatagram (udp_payload p))

-- BitTorrent drops a packet exactly if it comes from a client and is a TCP packet to one of the ports
-- 6881 to 6889 or with a payload that begins with the peer handshake, or a UDP packet to one of these
-- ports or with a payload that begins with a DHT or tracker signature or is a uTP SYN. Every other
-- packet it passes on unchanged.
pub bit_torrent_iff {ℓ} :
    {S : Type ℓ} (p : IpPacket) (d : Direction) (s : S)
    → (((bit_torrent p d s).0 ≡ none) ↔ ((d ≡ Direction.from_client) × Torrent p))
      × (((bit_torrent p d s).0 ≡ none) ⊎ ((bit_torrent p d s).0 ≡ some p))
unfolding bit_torrent
bit_torrent_iff p Direction.to_client s = ground arith
bit_torrent_iff p Direction.from_client s = ground (
  arith,
  is_peer_port_iff (dst_port p),
  is_peer_handshake_iff (tcp_payload p),
  datagram_iff (udp_payload p),
)
