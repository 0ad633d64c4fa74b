-- ===== src/Filter/DomainBlacklist/Remembered/Flows.antt =====
-- An address that was remembered stays blocked, whatever the filter sees in the meantime.
use ftpn.Packet.{IpPacket, is_ipv4, is_tcp, is_icmpv4, is_quic_initial, dst_ipv4, tcp_payload}
use ftpn.Filter.Manager.{Direction}
use ftpn.Filter.DomainBlacklist.{
  Memory, address_ttl, remember_ipv4_address, blacklisted_sni, domain_blacklist,
}
use ftpn.Filter.DomainBlacklist.Blocking.{
  BlockedHello, blacklisted_sni_iff, domain_blacklist_iff, after_hello,
}
use ftpn.Prelude.{
  ℕ, ◌+◌, ◌<◌, ◌≤◌, ◌≡◌, ◌≢◌, refl, ◌∙◌, inl, inr, true, false, ◌||◌, none, List, [], ◌∷◌, arith,
  ==_iff, find_key-assign, number_key,
}
use ftpn.Filter.DomainBlacklist.Remembered.{Held, filter-Keeps}

-- What the filter remembers behind packets of both directions.
unfoldable pub behind : (ℕ → ℕ) → List (List ℕ) → List (IpPacket × Direction) → Memory → Memory
unfolding domain_blacklist
behind clock domains [] m = m
behind clock domains ((p, d) ∷ ps) m =
    behind clock domains ps (domain_blacklist clock domains p d m).1

module _ (clock : ℕ → ℕ) (domains : List (List ℕ)) where
  behind-ticks :
      (address start : ℕ) (steady : (i j : ℕ) → i ≤ j → clock i ≤ clock j)
      (ps : List (IpPacket × Direction)) (m : Memory)
      → m.ticks ≤ (behind clock domains ps m).ticks
  unfolding behind
  behind-ticks address start steady [] m = omega arith
  behind-ticks address start steady ((p, d) ∷ ps) m =
      let (le, _) = filter-Keeps clock address start steady domains p d m in
      omega
        (arith, le, behind-ticks address start steady ps (domain_blacklist clock domains p d m).1)

  behind-Held :
      (address start : ℕ) (steady : (i j : ℕ) → i ≤ j → clock i ≤ clock j)
      (ps : List (IpPacket × Direction)) (m : Memory)
      → clock (behind clock domains ps m).ticks < clock start + address_ttl
      → start ≤ m.ticks
      → Held (clock start + address_ttl) address m.ipv4_addresses
      → Held (clock start + address_ttl) address (behind clock domains ps m).ipv4_addresses
  unfolding behind
  behind-Held address start steady [] m early late h = h
  behind-Held address start steady ((p, d) ∷ ps) m early late h =
      let u = (domain_blacklist clock domains p d m).1 in
      let (le, keep) = filter-Keeps clock address start steady domains p d m in
      let rest = behind-ticks address start steady ps u in
      let now = steady m.ticks (behind clock domains ps u).ticks (omega (arith, le, rest)) in
      behind-Held address start steady ps u early (omega (arith, le, late))
        (keep (omega (arith, now, early)) late h)

  Held-remember :
      (address other : ℕ) (domain : List ℕ) (m : Memory)
      → other ≡ address
      → domain ≢ []
      → Held
          (clock m.ticks + address_ttl)
          other
          (remember_ipv4_address clock address domain m).ipv4_addresses
  unfolding remember_ipv4_address
  Held-remember address other domain m same named = (
    record { domain = domain; expires_at = clock m.ticks + address_ttl },
    find_key-assign address other _ m.ipv4_addresses
        ∙ rw (same, (==_iff address address).1 refl) refl,
    omega arith,
    named,
  )

  remember-ticks :
      (address : ℕ) (domain : List ℕ) (m : Memory)
      → m.ticks ≤ (remember_ipv4_address clock address domain m).ticks
  unfolding remember_ipv4_address
  remember-ticks address domain m = omega arith

  -- With a clock that does not go back, a client's ClientHello for a blacklisted domain over IPv4 is dropped,
  -- and whatever packets the filter sees in the meantime, so is a QUIC Initial or ICMP packet of a client to
  -- the same address within the hour.
  pub flow_blocked_after_hello :
      (hello flow : IpPacket) (m : Memory) (ps : List (IpPacket × Direction))
      → ((i j : ℕ) → i ≤ j → clock i ≤ clock j)
      → is_tcp hello ≡ true
      → is_ipv4 hello ≡ true
      → BlockedHello clock domains (tcp_payload hello)
      → is_tcp flow ≡ false
      → is_ipv4 flow ≡ true
      → (is_quic_initial flow || is_icmpv4 flow) ≡ true
      → dst_ipv4 flow ≡ dst_ipv4 hello
      → let first = domain_blacklist clock domains hello Direction.from_client m in
        let now = behind clock domains ps first.1 in
        clock now.ticks < clock m.ticks + address_ttl
        → (first.0 ≡ none)
          × ((domain_blacklist clock domains flow Direction.from_client now).0 ≡ none)
  flow_blocked_after_hello hello flow m ps steady tcp ipv4 blocked not_tcp ipv4' quic same early =
      let sni = (blacklisted_sni_iff clock domains (tcp_payload hello)).1 blocked in
      let domain = blacklisted_sni domains (tcp_payload hello) in
      let u = remember_ipv4_address clock (dst_ipv4 hello) domain m in
      let first : domain_blacklist clock domains hello Direction.from_client m ≡ (none, u) =
        after_hello clock domains hello m tcp ipv4 sni in
      let early' : clock (behind clock domains ps u).ticks < clock m.ticks + address_ttl =
        rw first at early in
      let (e, found, late, named) =
        behind-Held (dst_ipv4 flow) m.ticks steady ps u early'
          (remember-ticks (dst_ipv4 hello) domain m)
          (Held-remember (dst_ipv4 hello) (dst_ipv4 flow) domain m same sni) in
      rw first (
        refl,
        (domain_blacklist_iff clock domains flow Direction.from_client _).1 (
          refl,
          inr (
            not_tcp,
            ground (arith, quic),
            inl (ipv4', quic, rw found (omega (arith, early', late), named)),
          ),
        ),
      )
