-- ===== src/Packet/Checksum/Runs.antt =====
-- A UDP packet, and one whose header length field says more than there is.
use ftpn.Packet.Access.{Access, ok, out_of_bounds, Returns}
use ftpn.Packet.{ipv4_ihl}
use ftpn.Packet.Checksum.{rfc1071, recalculate_checksums}
use ftpn.Packet.Checksum.Safety.{Shape, overruns, recalculate_checksums_lem}
use ftpn.Packet.Checksum.Verify.{recalculate_checksums-verifies}
use ftpn.Prelude.{
  ◌≡◌, ◌⊎◌, ℕ, refl, true, false, List, [], ◌∷◌, ◌++◌, replicate, arith, All, IsByte,
}

abbrev header : List ℕ
header = 69 ∷ 0 ∷ 0 ∷ 28 ∷ 0 ∷ 0 ∷ 0 ∷ 0 ∷ 64 ∷ 17 ∷ 0 ∷ 0 ∷ 10 ∷ 0 ∷ 0 ∷ 1 ∷ 10 ∷ 0 ∷ 0 ∷ 2 ∷ []

abbrev packet : List ℕ
packet = header ++ (0 ∷ 53 ∷ 0 ∷ 53 ∷ 0 ∷ 8 ∷ 0 ∷ 0 ∷ [])

packet_bytes : All IsByte packet
packet_bytes = ground arith

recalculated_packet :
    recalculate_checksums packet
    ≡ ok (
        69 ∷ 0 ∷ 0 ∷ 28 ∷ 0 ∷ 0 ∷ 0 ∷ 0 ∷ 64 ∷ 17 ∷ 102 ∷ 207 ∷ 10 ∷ 0 ∷ 0 ∷ 1 ∷ 10 ∷ 0 ∷ 0 ∷ 2 ∷ 0
        ∷ 53 ∷ 0 ∷ 53 ∷ 0 ∷ 8 ∷ 235 ∷ 113 ∷ [])
unfolding recalculate_checksums ftpn.Packet.Access.read ftpn.Packet.Access.read_u16
    ftpn.Packet.Access.read_bytes ftpn.Packet.Checksum.rfc1071_of
recalculated_packet = refl

recalculate_checksums-verifies_example :
    Returns (recalculate_checksums packet) (λ q. rfc1071 q 0 (ipv4_ihl q) 0 ≡ ok 0)
recalculate_checksums-verifies_example =
    recalculate_checksums-verifies packet packet_bytes refl (omega arith) (omega arith)

-- 20 bytes that say they have a header of 60.
abbrev short : List ℕ
short = 79 ∷ replicate 19 0

recalculate_checksums_lem_example :
    ((overruns short ≡ false) × Returns (recalculate_checksums short) (Shape short))
    ⊎ ((overruns short ≡ true) × (recalculate_checksums short ≡ out_of_bounds))
recalculate_checksums_lem_example = recalculate_checksums_lem short

overruns-short : overruns short ≡ true
unfolding overruns
overruns-short = refl
