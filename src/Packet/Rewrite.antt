-- ===== src/Packet/Rewrite.antt =====
-- fptn/src/common/network/ip_packet.h: the setters of the addresses, which recalculate the checksums.
-- An address is a number; an IPv6 address of 0 is the default one, which is not valid.
pub mod Kept
use ftpn.Packet.Access.{Access, ok, ◌>>=◌}
use ftpn.Packet.{IpPacket, is_ipv4, is_ipv6}
use ftpn.Packet.Checksum.{set_u16, recalculate_checksums}
use ftpn.Prelude.{
  ℕ, zero, suc, ◌+◌, ◌*◌, ◌/◌, ◌%◌, Bool, true, false, not, ◌||◌, List, [], ◌∷◌, length, byte, ltb,
  ◌==◌, if◌then◌else◌,
}

-- `n` words of a number from `k` on, the highest first.
unfoldable pub set_words : ℕ → List ℕ → ℕ → ℕ → List ℕ
unfolding set_u16
set_words zero p k a = p
set_words (suc n) p k a = set_u16 (set_words n p k (a / 65536)) (k + 2 * n) (a % 65536)

abbrev pub recalculated : IpPacket → List ℕ → Access IpPacket
recalculated p bytes = do q ← recalculate_checksums bytes; ok (record p { bytes = q })

unfoldable pub compute_calculate_fields : IpPacket → Access IpPacket
unfolding recalculate_checksums
compute_calculate_fields p = if ltb (length p.bytes) 20 then ok p else recalculated p p.bytes

-- SetDstIPv4Address at 16, SetSrcIPv4Address at 12.
unfoldable pub set_ipv4_address : ℕ → ℕ → IpPacket → Access IpPacket
unfolding set_words recalculate_checksums
set_ipv4_address at address p =
    if not (is_ipv4 p) || ltb (length p.bytes) 20
    then ok p
    else if byte p.bytes 8 == 0
    then ok p
    else recalculated p (set_words 2 p.bytes at address)

abbrev pub set_dst_ipv4_address : ℕ → IpPacket → Access IpPacket
set_dst_ipv4_address = set_ipv4_address 16

abbrev pub set_src_ipv4_address : ℕ → IpPacket → Access IpPacket
set_src_ipv4_address = set_ipv4_address 12

-- SetDstIPv6Address at 24, SetSrcIPv6Address at 8.
unfoldable pub set_ipv6_address : ℕ → ℕ → IpPacket → Access IpPacket
unfolding set_words recalculate_checksums
set_ipv6_address at address p =
    if not (is_ipv6 p) || ltb (length p.bytes) 40
    then ok p
    else if address == 0
    then ok p
    else recalculated p (set_words 8 p.bytes at address)

abbrev pub set_dst_ipv6_address : ℕ → IpPacket → Access IpPacket
set_dst_ipv6_address = set_ipv6_address 24

abbrev pub set_src_ipv6_address : ℕ → IpPacket → Access IpPacket
set_src_ipv6_address = set_ipv6_address 8
