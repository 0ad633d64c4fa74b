-- ===== src/Filter/BitTorrent.antt =====
-- fptn/src/fptn-server/filter/filters/bittorrent: no BitTorrent traffic from the clients.
pub mod Signatures
use ftpn.Packet.{IpPacket, is_tcp, is_udp, dst_port, tcp_payload, udp_payload}
use ftpn.Filter.Manager.{Direction, Filter}
use ftpn.Prelude.{
  ℕ, ◌+◌, Bool, true, false, not, ◌&&◌, ◌||◌, Option, none, some, List, [], ◌∷◌, length, byte,
  read_u16_be, ltb, leb, ◌==◌, if◌then◌else◌,
}

-- StartsWith: memcmp of the payload's first bytes with the signature.
unfoldable pub starts_with : List ℕ → List ℕ → Bool
starts_with payload [] = true
starts_with [] (c ∷ signature) = false
starts_with (b ∷ payload) (c ∷ signature) = b == c && starts_with payload signature

unfoldable pub is_peer_port : ℕ → Bool
is_peer_port port = leb 6881 port && leb port 6889

-- "d1:ad2:id", "d1:rd2:id", "d1:eli"
abbrev pub query_signature : List ℕ
query_signature = 100 ∷ 49 ∷ 58 ∷ 97 ∷ 100 ∷ 50 ∷ 58 ∷ 105 ∷ 100 ∷ []

abbrev pub response_signature : List ℕ
response_signature = 100 ∷ 49 ∷ 58 ∷ 114 ∷ 100 ∷ 50 ∷ 58 ∷ 105 ∷ 100 ∷ []

abbrev pub error_signature : List ℕ
error_signature = 100 ∷ 49 ∷ 58 ∷ 101 ∷ 108 ∷ 105 ∷ []

unfoldable pub is_dht : List ℕ → Bool
unfolding starts_with
is_dht payload =
    starts_with payload query_signature
    || starts_with payload response_signature
    || starts_with payload error_signature

unfoldable pub is_utp_syn : List ℕ → Bool
is_utp_syn payload =
    if ltb (length payload) 20
    then false
    else byte payload 0 == 0x41 && leb (byte payload 1) 2 && read_u16_be payload 18 == 0

abbrev pub connect_signature : List ℕ
connect_signature = 0 ∷ 0 ∷ 0x04 ∷ 0x17 ∷ 0x27 ∷ 0x10 ∷ 0x19 ∷ 0x80 ∷ []

unfoldable pub is_udp_tracker : List ℕ → Bool
unfolding starts_with
is_udp_tracker payload = starts_with payload connect_signature

-- 0x13 and "BitTorrent protocol"
abbrev pub handshake_signature : List ℕ
handshake_signature =
    0x13 ∷ 66 ∷ 105 ∷ 116 ∷ 84 ∷ 111 ∷ 114 ∷ 114 ∷ 101 ∷ 110 ∷ 116 ∷ 32 ∷ 112 ∷ 114 ∷ 111 ∷ 116
    ∷ 111 ∷ 99 ∷ 111 ∷ 108 ∷ []

unfoldable pub is_peer_handshake : List ℕ → Bool
unfolding starts_with
is_peer_handshake payload = starts_with payload handshake_signature

abbrev pub is_udp_torrent : List ℕ → Bool
is_udp_torrent payload = is_dht payload || is_utp_syn payload || is_udp_tracker payload

-- `payload && ...`
abbrev pub when_payload : (List ℕ → Bool) → Option (List ℕ) → Bool
when_payload test none = false
when_payload test (some payload) = test payload

unfoldable pub bit_torrent {ℓ} : {S : Type ℓ} → Filter S
bit_torrent packet Direction.to_client s = (some packet, s)
bit_torrent packet Direction.from_client s =
    let port = dst_port packet in
    if is_tcp packet
    then (if is_peer_port port || when_payload is_peer_handshake (tcp_payload packet)
        then (none, s)
        else (some packet, s))
    else if is_udp packet
    then (if is_peer_port port || when_payload is_udp_torrent (udp_payload packet)
        then (none, s)
        else (some packet, s))
    else (some packet, s)
