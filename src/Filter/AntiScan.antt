-- ===== src/Filter/AntiScan.antt =====
-- fptn/src/fptn-server/filter/filters/antiscan: no packet into the virtual network but to the server.
-- `x & mask` for the mask of h host bits is `x / 2 ^ h * 2 ^ h`; the prefix length is 1 to 32 or 0 to
-- 128 (a shift by 32 is undefined in the source).
pub mod Blocks
use ftpn.Packet.{IpPacket, is_ipv4, is_ipv6, dst_ipv4, dst_ipv6}
use ftpn.Filter.Manager.{Direction, Filter}
use ftpn.Prelude.{
  ℕ, ◌+◌, ◌-◌, ◌*◌, ◌/◌, ◌^◌, Bool, true, false, not, ◌&&◌, ◌||◌, Option, none, some, leb, ◌==◌,
  if◌then◌else◌,
}

pub record AntiScan : Type 0 where
  pub server_ipv4 : ℕ
  pub server_ipv4_net : ℕ
  pub server_ipv4_mask : ℕ
  pub server_ipv6 : ℕ
  pub server_ipv6_net : ℕ
  pub server_ipv6_mask : ℕ

abbrev pub ipv4_broadcast : ℕ
ipv4_broadcast = 0xffff_ffff

module _ (f : AntiScan) where
  unfoldable pub in_ipv4_network : ℕ → Bool
  in_ipv4_network dst =
      let size = 2 ^ (32 - f.server_ipv4_mask) in
      dst / size * size == f.server_ipv4_net / size * size

  -- net | (2 ^ h - 1) is the highest address of the block that the network address is in.
  unfoldable pub in_ipv6_network : ℕ → Bool
  in_ipv6_network dst =
      let size = 2 ^ (128 - f.server_ipv6_mask) in
      leb f.server_ipv6_net dst && leb dst (f.server_ipv6_net / size * size + (size - 1))

  unfoldable pub anti_scan {ℓ} : {S : Type ℓ} → Filter S
  unfolding in_ipv4_network in_ipv6_network
  anti_scan packet direction s =
      let dst4 = dst_ipv4 packet in
      let dst6 = dst_ipv6 packet in
      if is_ipv4 packet
      then (if f.server_ipv4 == dst4 || (not (in_ipv4_network dst4) && not (ipv4_broadcast == dst4))
          then (some packet, s)
          else (none, s))
      else if is_ipv6 packet
      then (if f.server_ipv6 == dst6 || not (in_ipv6_network dst6)
          then (some packet, s)
          else (none, s))
      else (none, s)
