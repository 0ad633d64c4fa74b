-- ===== src/Packet/Checksum.antt =====
-- fptn/src/common/network/ip_utils.h: the checksums of a packet, recalculated in place. A read or a
-- write behind the last byte is out_of_bounds. The five functions for a transport header differ in
-- their numbers only, which are the arguments of checksum_ipv4 and checksum_ipv6.
pub mod Fold
pub mod Words
pub mod Safety
pub mod Verify
mod Runs
use ftpn.Packet.Access.{Access, ok, out_of_bounds, ◌>>=◌, read, read_u16, read_bytes}
use ftpn.Packet.{ipv4_ihl}
use ftpn.Prelude.{
  ℕ, zero, suc, ◌+◌, ◌-◌, ◌*◌, ◌/◌, ◌%◌, min, Bool, true, false, ◌&&◌, List, [], ◌∷◌, ◌++◌, length,
  byte, replicate, ltb, leb, ◌==◌, if◌then◌else◌,
}

abbrev pub u32_limit : ℕ
u32_limit = 4294967296

-- WriteU16Be, inside the list.
unfoldable pub set_u16 : List ℕ → ℕ → ℕ → List ℕ
set_u16 [] k v = []
set_u16 (x ∷ xs) (suc k) v = x ∷ set_u16 xs k v
set_u16 (x ∷ []) zero v = x ∷ []
set_u16 (x ∷ y ∷ xs) zero v = v / 256 ∷ v % 256 ∷ xs

unfoldable pub write_u16 : List ℕ → ℕ → ℕ → Access (List ℕ)
unfolding set_u16
write_u16 p k v = if ltb (k + 1) (length p) then ok (set_u16 p k v) else out_of_bounds

-- The loop of Rfc1071 over the words; an odd last byte is the high byte of a word.
unfoldable pub sum_words : List ℕ → ℕ → ℕ
sum_words [] sum = sum
sum_words (a ∷ []) sum = (sum + a * 256) % u32_limit
sum_words (a ∷ b ∷ bs) sum = sum_words bs ((sum + (a * 256 + b)) % u32_limit)

-- The loop that folds the sum, on fuel; a uint32_t needs two passes.
unfoldable pub fold_sum : ℕ → ℕ → ℕ
fold_sum zero sum = sum
fold_sum (suc fuel) sum =
    let rest = fold_sum fuel (sum % 65536 + sum / 65536) in if sum / 65536 == 0 then sum else rest

-- Rfc1071 of the bytes read.
unfoldable pub rfc1071_of : List ℕ → ℕ → ℕ
unfolding sum_words fold_sum
rfc1071_of bytes sum = 65535 - fold_sum 2 (sum_words bytes sum) % 65536

unfoldable pub rfc1071 : List ℕ → ℕ → ℕ → ℕ → Access ℕ
rfc1071 p i len sum = do bytes ← read_bytes p i len; ok (rfc1071_of bytes sum)

-- The field at `k` of the part at `i` is set to 0 and then to the checksum of the part; if
-- `zero_as_ones` a checksum of 0 is written as 0xFFFF.
unfoldable pub put_checksum : Bool → List ℕ → ℕ → ℕ → ℕ → ℕ → Access (List ℕ)
unfolding write_u16 rfc1071
put_checksum zero_as_ones p i len k sum = do
  cleared ← write_u16 p (i + k) 0
  ck ← rfc1071 cleared i len sum
  write_u16 cleared (i + k) (if zero_as_ones && ck == 0 then 65535 else ck)

unfoldable pub checksum_ipv4_header : List ℕ → Access (List ℕ)
unfolding put_checksum
checksum_ipv4_header p = put_checksum false p 0 (ipv4_ihl p) 10 0

-- What the transport functions differ in: the protocol number, where the checksum stands, how many
-- bytes the header needs, whether a pseudo-header is summed, and what is written for 0.
pub record Transport : Type 0 where
  pub protocol : ℕ
  pub field : ℕ
  pub needed : ℕ
  pub has_pseudo_header : Bool
  pub zero_as_ones : Bool

abbrev pub tcp : Transport
tcp = record {
  protocol = 6;
  field = 16;
  needed = 18;
  has_pseudo_header = true;
  zero_as_ones = false;
}

abbrev pub udp : Transport
udp = record { protocol = 17; field = 6; needed = 8; has_pseudo_header = true; zero_as_ones = true }

abbrev pub icmp : Transport
icmp = record {
  protocol = 1;
  field = 2;
  needed = 4;
  has_pseudo_header = false;
  zero_as_ones = false;
}

abbrev pub icmpv6 : Transport
icmpv6 = record {
  protocol = 58;
  field = 2;
  needed = 4;
  has_pseudo_header = true;
  zero_as_ones = false;
}

-- The sum over the pseudo-header: the addresses, the protocol and the length.
unfoldable pub pseudo_sum_ipv4 : Transport → List ℕ → ℕ → Access ℕ
unfolding sum_words
pseudo_sum_ipv4 t p len =
    if t.has_pseudo_header
    then (do
      addresses ← read_bytes p 12 8
      ok (sum_words (addresses ++ (0 ∷ t.protocol ∷ len % 65536 / 256 ∷ len % 256 ∷ [])) 0))
    else ok 0

unfoldable pub pseudo_sum_ipv6 : Transport → List ℕ → ℕ → Access ℕ
unfolding sum_words
pseudo_sum_ipv6 t p len = do
  addresses ← read_bytes p 8 32
  ok (
      sum_words (addresses ++ (0 ∷ 0 ∷ len % 65536 / 256 ∷ len % 256 ∷ 0 ∷ 0 ∷ 0 ∷ t.protocol ∷ []))
        0)

-- ChecksumTcpIpv4, ChecksumUdpIpv4, ChecksumIcmpIpv4
unfoldable pub checksum_ipv4 : Transport → List ℕ → Access (List ℕ)
unfolding put_checksum pseudo_sum_ipv4
checksum_ipv4 t p =
    let ihl = ipv4_ihl p in
    if ltb (length p) (ihl + t.needed) then ok p else do
      total ← read_u16 p 2
      let len = min (total - ihl) (length p - ihl)
      if len == 0
          then ok p
          else do sum ← pseudo_sum_ipv4 t p len; put_checksum t.zero_as_ones p ihl len t.field sum

-- ChecksumTcpIpv6, ChecksumUdpIpv6, ChecksumIcmpv6Ipv6
unfoldable pub checksum_ipv6 : Transport → List ℕ → Access (List ℕ)
unfolding put_checksum pseudo_sum_ipv6
checksum_ipv6 t p = if ltb (length p) (40 + t.needed) then ok p else do
  total ← read_u16 p 4
  let len = min total (length p - 40)
  if len == 0
      then ok p
      else do sum ← pseudo_sum_ipv6 t p len; put_checksum t.zero_as_ones p 40 len t.field sum

unfoldable pub checksum_transport_ipv4 : List ℕ → Access (List ℕ)
unfolding checksum_ipv4
checksum_transport_ipv4 p = do
  protocol ← read p 9
  if protocol == 6
      then checksum_ipv4 tcp p
      else if protocol == 17
      then checksum_ipv4 udp p
      else if protocol == 1
      then checksum_ipv4 icmp p
      else ok p

unfoldable pub recalculate_checksums : List ℕ → Access (List ℕ)
unfolding checksum_transport_ipv4 checksum_ipv4_header checksum_ipv6
recalculate_checksums p = if ltb (length p) 1 then ok p else do
  first ← read p 0
  if first / 16 == 4
      then (if ltb (length p) 20
          then ok p
          else do q ← checksum_transport_ipv4 p; checksum_ipv4_header q)
      else if first / 16 == 6
      then (if ltb (length p) 40 then ok p else do
        next ← read p 6
        if next == 6
            then checksum_ipv6 tcp p
            else if next == 17
            then checksum_ipv6 udp p
            else if next == 58
            then checksum_ipv6 icmpv6 p
            else ok p)
      else ok p
