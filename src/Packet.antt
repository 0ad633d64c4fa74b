-- ===== src/Packet.antt =====
-- fptn/src/common/network/ip_packet.h: the packet, its header fields and its payloads.
-- A packet's bytes are a list of numbers below 256. Every read here stands behind the length test
-- that the source makes, so the value of `byte` past the end is never used by a parsed packet.
pub mod Access
pub mod Dns
pub mod Tls
pub mod Checksum
pub mod Rewrite
pub mod Runs
use ftpn.Prelude.{
  ℕ, ◌+◌, ◌-◌, ◌*◌, ◌/◌, ◌%◌, ◌≤◌, ◌<◌, Bool, true, false, not, ◌&&◌, ◌||◌, Option, none, some,
  List, [], ◌∷◌, length, byte, read_u16_be, read_u32_be, drop, take, ltb, leb, ◌==◌, if◌then◌else◌,
}

-- MAX_CLIENT_ID
abbrev pub max_client_id : ℕ
max_client_id = 0xffff_ffff_ffff_ffff

pub record IpPacket : Type 0 where
  pub bytes : List ℕ
  pub client_id : ℕ

unfoldable pub parse : List ℕ → ℕ → Option IpPacket
parse buffer client_id =
    let ver = byte buffer 0 / 16 in
    if ltb (length buffer) 20
    then none
    else if ver == 4 || (ver == 6 && leb 40 (length buffer))
    then some (record { bytes = buffer; client_id = client_id })
    else none

-- (p[0] & 0x0F) * 4
abbrev pub ipv4_ihl : List ℕ → ℕ
ipv4_ihl p = byte p 0 % 16 * 4

module _ (p : IpPacket) where
  unfoldable pub is_ipv4 : Bool
  is_ipv4 = ltb 0 (length p.bytes) && byte p.bytes 0 / 16 == 4

  unfoldable pub is_ipv6 : Bool
  is_ipv6 = ltb 0 (length p.bytes) && byte p.bytes 0 / 16 == 6

  -- The test that IsTCP, IsUDP, IsICMPv4 and IsICMPv6 share: the protocol byte of either header.
  pub has_protocol : ℕ → ℕ → Bool
  unfolding is_ipv4 is_ipv6
  has_protocol proto4 proto6 =
      if is_ipv4
      then leb 20 (length p.bytes) && byte p.bytes 9 == proto4
      else if is_ipv6
      then leb 40 (length p.bytes) && byte p.bytes 6 == proto6
      else false

  unfoldable pub is_tcp : Bool
  unfolding has_protocol
  is_tcp = has_protocol 6 6

  unfoldable pub is_udp : Bool
  unfolding has_protocol
  is_udp = has_protocol 17 17

  unfoldable pub is_icmpv4 : Bool
  unfolding is_ipv4
  is_icmpv4 = is_ipv4 && leb 20 (length p.bytes) && byte p.bytes 9 == 1

  unfoldable pub is_icmpv6 : Bool
  unfolding is_ipv6
  is_icmpv6 = is_ipv6 && leb 40 (length p.bytes) && byte p.bytes 6 == 58

  unfoldable pub ip_header_size : ℕ
  unfolding is_ipv4
  ip_header_size = if is_ipv4 then ipv4_ihl p.bytes else 40

  -- GetTcpSrcPort, GetUdpSrcPort
  unfoldable pub src_port : ℕ
  unfolding ip_header_size
  src_port =
      if ltb (length p.bytes) (ip_header_size + 2) then 0 else read_u16_be p.bytes ip_header_size

  -- GetTcpDstPort, GetUdpDstPort
  unfoldable pub dst_port : ℕ
  unfolding ip_header_size
  dst_port =
      if ltb (length p.bytes) (ip_header_size + 4)
      then 0
      else read_u16_be p.bytes (ip_header_size + 2)

  abbrev protocol_byte : ℕ
  protocol_byte = if is_ipv4 then byte p.bytes 9 else byte p.bytes 6

  -- `none` is the null pointer with size 0.
  unfoldable pub tcp_payload : Option (List ℕ)
  unfolding is_ipv4 ip_header_size
  tcp_payload =
      let tcp_hdr = byte p.bytes (ip_header_size + 12) / 16 * 4 in
      if not (protocol_byte == 6)
      then none
      else if ltb (length p.bytes) (ip_header_size + 20)
      then none
      else if ltb (length p.bytes) (ip_header_size + tcp_hdr)
      then none
      else some (drop (ip_header_size + tcp_hdr) p.bytes)

  unfoldable pub udp_payload : Option (List ℕ)
  unfolding is_ipv4 ip_header_size
  udp_payload =
      if not (protocol_byte == 17)
      then none
      else if ltb (length p.bytes) (ip_header_size + 8)
      then none
      else some (drop (ip_header_size + 8) p.bytes)

  -- The address as a number in host order; 0 is the default address.
  unfoldable pub dst_ipv4 : ℕ
  unfolding is_ipv4
  dst_ipv4 = if not is_ipv4 || ltb (length p.bytes) 20 then 0 else read_u32_be p.bytes 16

  unfoldable pub src_ipv4 : ℕ
  unfolding is_ipv4
  src_ipv4 = if not is_ipv4 || ltb (length p.bytes) 20 then 0 else read_u32_be p.bytes 12

-- A number from the bytes of an address, the first one highest: ipv6::toUInt128.
unfoldable pub to_uint128 : List ℕ → ℕ → ℕ
to_uint128 [] acc = acc
to_uint128 (b ∷ bs) acc = to_uint128 bs (acc * 256 + b)

module _ (p : IpPacket) where
  unfoldable pub dst_ipv6 : ℕ
  unfolding is_ipv6 to_uint128
  dst_ipv6 =
      if not (is_ipv6 p) || ltb (length p.bytes) 40
      then 0
      else to_uint128 (take 16 (drop 24 p.bytes)) 0

  unfoldable pub src_ipv6 : ℕ
  unfolding is_ipv6 to_uint128
  src_ipv6 =
      if not (is_ipv6 p) || ltb (length p.bytes) 40
      then 0
      else to_uint128 (take 16 (drop 8 p.bytes)) 0

-- IsQuicInitial: a long header of an Initial packet of version 1 or 2.
unfoldable pub is_quic_initial : IpPacket → Bool
is_quic_initial p = elim (udp_payload p) [
  | none ↦ false
  | some payload ↦
      (if ltb (length payload) 7 || not (leb 192 (byte payload 0))
        then false
        else let version = read_u32_be payload 1 in
          let type = byte payload 0 / 16 % 4 in
          (version == 1 && type == 0) || (version == 0x6B3343CF && type == 1))
]
