-- ===== src/Filter/AntiScan/Blocks.antt =====
-- The filter in terms of address ranges.
use native.Mathlib.Nat.{div-add-mod, mod-lt, mul-le-mul_right, pow-succ'}
use ftpn.Packet.{IpPacket, is_ipv4, is_ipv6, dst_ipv4, dst_ipv6}
use ftpn.Filter.Manager.{Direction}
use ftpn.Filter.AntiScan.{AntiScan, anti_scan, in_ipv4_network, in_ipv6_network, ipv4_broadcast}
use ftpn.Prelude.{
  ℕ, zero, suc, ◌+◌, ◌-◌, ◌*◌, ◌/◌, ◌%◌, ◌^◌, ◌≤◌, ◌<◌, ◌≡◌, ◌≢◌, ap, ◌↔◌, ◌⊎◌, true, false, none,
  some, arith,
}

-- A multiple of `size` that reaches past `q * size` reaches as far as the next one.
next_multiple : (q m size : ℕ) → q < m → q * size + size ≤ m * size
next_multiple q m size lt = omega (arith, mul-le-mul_right size lt)

-- The quotient of a number that lies in the block of `size` at `m * size`.
quotient_unique :
    (x m q r size : ℕ) → r < size → q * size + r ≡ x → m * size ≤ x → x < m * size + size → q ≡ m
quotient_unique x m q r size hr e lo hi =
    ground (arith, next_multiple q m size, next_multiple m q size)

-- Rounding down to a multiple of `size` gives `m * size` exactly for the numbers of its block.
round_down_iff :
    (x m size : ℕ)
    → 0 < size
    → (x / size * size ≡ m * size) ↔ ((m * size ≤ x) × (x < m * size + size))
round_down_iff x m size pos = (
  λ e. (omega (arith, div-add-mod x size), omega (arith, div-add-mod x size, mod-lt x pos)),
  λ h.
      ap (λ q. q * size)
        (quotient_unique x m (x / size) (x % size) size (mod-lt x pos)
          (omega (arith, div-add-mod x size)) h.0 h.1),
)

-- A multiple of `size` is rounded down to itself.
round_multiple : (m size : ℕ) → 0 < size → m * size / size * size ≡ m * size
round_multiple m size pos = (round_down_iff (m * size) m size pos).1 (omega arith, omega arith)

two-pow_pos : (n : ℕ) → 0 < 2 ^ n
two-pow_pos zero = omega arith
two-pow_pos (suc n) = omega (arith, pow-succ' 2 n, two-pow_pos n)

module _ (f : AntiScan) where
  -- The block of IPv4 addresses that the network `m * 2 ^ h` names, for h host bits.
  pub in_ipv4_network_iff :
      (m dst : ℕ)
      → f.server_ipv4_net ≡ m * 2 ^ (32 - f.server_ipv4_mask)
      → (in_ipv4_network f dst ≡ true)
        ↔ ((f.server_ipv4_net ≤ dst) × (dst < f.server_ipv4_net + 2 ^ (32 - f.server_ipv4_mask)))
  unfolding in_ipv4_network
  in_ipv4_network_iff m dst h =
      let size = 2 ^ (32 - f.server_ipv4_mask) in
      let pos = two-pow_pos (32 - f.server_ipv4_mask) in
      ground (
        arith,
        round_multiple m size pos,
        round_down_iff dst m size pos,
        ap (λ n. n / size * size) h,
      )

  pub in_ipv6_network_iff :
      (m dst : ℕ)
      → f.server_ipv6_net ≡ m * 2 ^ (128 - f.server_ipv6_mask)
      → (in_ipv6_network f dst ≡ true)
        ↔ ((f.server_ipv6_net ≤ dst) × (dst < f.server_ipv6_net + 2 ^ (128 - f.server_ipv6_mask)))
  unfolding in_ipv6_network
  in_ipv6_network_iff m dst h =
      let size = 2 ^ (128 - f.server_ipv6_mask) in
      let pos = two-pow_pos (128 - f.server_ipv6_mask) in
      ground (arith, round_multiple m size pos, pos, ap (λ n. n / size * size) h)

  -- What the filter lets through, by address ranges.
  abbrev Allowed : IpPacket → Type 0
  Allowed p =
      (is_ipv4 p ≡ true)
        × ((f.server_ipv4 ≡ dst_ipv4 p)
            ⊎ (¬ (
                  (f.server_ipv4_net ≤ dst_ipv4 p)
                  × (dst_ipv4 p < f.server_ipv4_net + 2 ^ (32 - f.server_ipv4_mask)))
                × (dst_ipv4 p ≢ ipv4_broadcast)))
      ⊎ (is_ipv4 p ≡ false)
        × (is_ipv6 p ≡ true)
        × ((f.server_ipv6 ≡ dst_ipv6 p)
            ⊎ ¬ (
                (f.server_ipv6_net ≤ dst_ipv6 p)
                × (dst_ipv6 p < f.server_ipv6_net + 2 ^ (128 - f.server_ipv6_mask))))

  -- An AntiScan filter whose two networks are given by network addresses (multiples of the block
  -- size) passes on exactly these packets, in either direction: an IPv4 packet to the server's address,
  -- or to an address that is neither in the server's IPv4 block nor the broadcast address; an IPv6
  -- packet to the server's address or to one outside the server's IPv6 block. It alters no packet.
  pub anti_scan_iff {ℓ} :
      {S : Type ℓ} (m4 m6 : ℕ) (p : IpPacket) (d : Direction) (s : S)
      → f.server_ipv4_net ≡ m4 * 2 ^ (32 - f.server_ipv4_mask)
      → f.server_ipv6_net ≡ m6 * 2 ^ (128 - f.server_ipv6_mask)
      → (((anti_scan f p d s).0 ≡ some p) ↔ Allowed p)
        × (((anti_scan f p d s).0 ≡ none) ↔ ¬ Allowed p)
  unfolding anti_scan
  anti_scan_iff m4 m6 p d s h4 h6 =
      ground (arith, in_ipv4_network_iff m4 (dst_ipv4 p) h4, in_ipv6_network_iff m6 (dst_ipv6 p) h6)
