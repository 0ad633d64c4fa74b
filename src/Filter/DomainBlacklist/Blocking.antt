-- ===== src/Filter/DomainBlacklist/Blocking.antt =====
-- Which packets the DomainBlacklist filter drops.
use mathlib.Core.Path.{subst}
use ftpn.Packet.{
  IpPacket, is_ipv4, is_ipv6, is_tcp, is_icmpv4, is_icmpv6, is_quic_initial, dst_ipv4, dst_ipv6,
  tcp_payload,
}
use ftpn.Packet.Access.{Access, ok, out_of_bounds, read, read_u16, value_or}
use ftpn.Packet.Tls.{is_tls_client_hello, get_tls_sni}
use ftpn.Filter.DomainBlacklist.Suffix.{IsBlacklisted, get_blacklisted_domain_lem}
use ftpn.Filter.Manager.{Direction, PassesUnchanged}
use ftpn.Filter.DomainBlacklist.{
  Blocked, Memory, is_empty, remember_ipv4_address, look_up, get_blocked_ipv4_domain,
  get_blocked_ipv6_domain, blacklisted_name, blacklisted_sni, on_tcp, on_icmp_or_quic,
  domain_blacklist,
}
use ftpn.Prelude.{
  ℕ, ◌+◌, ◌*◌, ◌<◌, ◌≤◌, ◌≡◌, ◌≢◌, refl, ◌↔◌, ◌⊎◌, inl, inr, true, false, ◌||◌, Option, none, some,
  List, [], ◌∷◌, arith, find_key, number_key, Option-cases, Bool-cases,
}

pub is_empty_iff : (s : List ℕ) → (is_empty s ≡ true) ↔ (s ≡ [])
is_empty_iff [] = ground arith
is_empty_iff (c ∷ s) = ground arith

-- A handshake record of a ClientHello: type 22, a version from 3.1 to 3.4, and message type 1.
abbrev pub ClientHelloRecord : List ℕ → Type 0
ClientHelloRecord [] = ⊥
ClientHelloRecord (t ∷ []) = ⊥
ClientHelloRecord (t ∷ v ∷ []) = ⊥
ClientHelloRecord (t ∷ v ∷ w ∷ []) = ⊥
ClientHelloRecord (t ∷ v ∷ w ∷ h ∷ []) = ⊥
ClientHelloRecord (t ∷ v ∷ w ∷ h ∷ l ∷ []) = ⊥
ClientHelloRecord (t ∷ v ∷ w ∷ h ∷ l ∷ m ∷ rest) =
    (t ≡ 22) × (769 ≤ v * 256 + w) × (v * 256 + w ≤ 772) × (m ≡ 1)

is_tls_client_hello_iff :
    (b : List ℕ) → (value_or false (is_tls_client_hello b) ≡ true) ↔ ClientHelloRecord b
unfolding is_tls_client_hello read read_u16
is_tls_client_hello_iff [] = ground arith
is_tls_client_hello_iff (t ∷ []) = ground arith
is_tls_client_hello_iff (t ∷ v ∷ []) = ground arith
is_tls_client_hello_iff (t ∷ v ∷ w ∷ []) = ground arith
is_tls_client_hello_iff (t ∷ v ∷ w ∷ h ∷ []) = ground arith
is_tls_client_hello_iff (t ∷ v ∷ w ∷ h ∷ l ∷ []) = ground arith
is_tls_client_hello_iff (t ∷ v ∷ w ∷ h ∷ l ∷ m ∷ rest) = ground arith

module _ (clock : ℕ → ℕ) (domains : List (List ℕ)) where
  -- The filter hands on a packet as it is or drops it.
  pub domain_blacklist-PassesUnchanged : PassesUnchanged (domain_blacklist clock domains)
  unfolding domain_blacklist on_tcp on_icmp_or_quic
  domain_blacklist-PassesUnchanged p Direction.to_client m = inr refl
  domain_blacklist-PassesUnchanged p Direction.from_client m = ground arith

  -- An entry whose time is not up, with a domain.
  abbrev Live : ℕ → Option Blocked → Type 0
  Live now none = ⊥
  Live now (some e) = (now < e.expires_at) × (e.domain ≢ [])

  look_up_iff :
      (address now : ℕ) (entries : List (ℕ × Blocked))
      → (is_empty (look_up address entries now).0 ≡ false) ↔ Live now (find_key address entries)
  unfolding look_up
  look_up_iff address now entries = elim (Option-cases (find_key address entries)) [
    | inl e ↦ rw e (ground arith)
    | inr (b, e) ↦ rw e (ground (arith, is_empty_iff b.domain))
  ]

  -- A QUIC or ICMP packet to an address that is blocked at the time of the clock's next reading.
  abbrev pub BlockedFlow : IpPacket → Memory → Type 0
  BlockedFlow p m =
      (is_ipv4 p ≡ true)
        × ((is_quic_initial p || is_icmpv4 p) ≡ true)
        × Live (clock m.ticks) (find_key (dst_ipv4 p) m.ipv4_addresses)
      ⊎ (is_ipv4 p ≡ false)
        × (is_ipv6 p ≡ true)
        × ((is_quic_initial p || is_icmpv6 p) ≡ true)
        × Live (clock m.ticks) (find_key (dst_ipv6 p) m.ipv6_addresses)

  on_icmp_or_quic_iff :
      (p : IpPacket) (m : Memory) → ((on_icmp_or_quic clock domains p m).0 ≡ none) ↔ BlockedFlow p m
  unfolding on_icmp_or_quic get_blocked_ipv4_domain get_blocked_ipv6_domain
  on_icmp_or_quic_iff p m = ground (
    arith,
    look_up_iff (dst_ipv4 p) (clock m.ticks) m.ipv4_addresses,
    look_up_iff (dst_ipv6 p) (clock m.ticks) m.ipv6_addresses,
  )

  -- A payload with the record of a ClientHello whose server name is blacklisted.
  abbrev pub BlockedHello : Option (List ℕ) → Type 0
  BlockedHello none = ⊥
  BlockedHello (some b) =
      ClientHelloRecord b
      × ((domain : List ℕ) × (get_tls_sni b ≡ ok (some domain)) × IsBlacklisted domains domain)

  blacklisted_name_iff :
      (x : Access (Option (List ℕ)))
      → (blacklisted_name domains (value_or none x) ≢ [])
        ↔ ((domain : List ℕ) × (x ≡ ok (some domain)) × IsBlacklisted domains domain)
  blacklisted_name_iff out_of_bounds = (λ h. absurd (h refl), λ (d, e, b). absurd (cc e))
  blacklisted_name_iff (ok none) = (λ h. absurd (h refl), λ (d, e, b). absurd (cc e))
  blacklisted_name_iff (ok (some domain)) = (
    λ h. (domain, refl, (get_blacklisted_domain_lem domains domain).0.0 h),
    λ (d, e, b).
        let same : d ≡ domain = cc e in
        (get_blacklisted_domain_lem domains domain).0.1 (subst (IsBlacklisted domains) same b),
  )

  pub blacklisted_sni_iff :
      (payload : Option (List ℕ)) → (blacklisted_sni domains payload ≢ []) ↔ BlockedHello payload
  unfolding blacklisted_sni
  blacklisted_sni_iff none = (λ h. absurd (h refl), λ h. absurd h)
  blacklisted_sni_iff (some b) =
      let (to, from) = is_tls_client_hello_iff b in
      let (names, named) = blacklisted_name_iff (get_tls_sni b) in
      elim (Bool-cases (value_or false (is_tls_client_hello b))) [
        | inl e ↦ rw e (λ h. (to e, names h), λ (_, n). named n)
        | inr e ↦ rw e (λ h. absurd (h refl), λ (c, _). absurd (ground (arith, e, from c)))
      ]

  -- DomainBlacklist drops a packet exactly if it comes from a client and is a TCP packet whose payload
  -- is a TLS record of a ClientHello, with a version from SSL 3.1 to TLS 1.3, in which the parser finds a
  -- server name that is blacklisted, or else a QUIC Initial or ICMP packet to an address that was
  -- remembered for a blacklisted domain and whose time is not up.
  pub domain_blacklist_iff :
      (p : IpPacket) (d : Direction) (m : Memory)
      → ((domain_blacklist clock domains p d m).0 ≡ none) ↔ (
          (d ≡ Direction.from_client)
          × ((is_tcp p ≡ true) × BlockedHello (tcp_payload p)
              ⊎ (is_tcp p ≡ false)
                × ((is_quic_initial p || is_icmpv4 p || is_icmpv6 p) ≡ true)
                × BlockedFlow p m))
  unfolding domain_blacklist on_tcp
  domain_blacklist_iff p Direction.to_client m = ground arith
  domain_blacklist_iff p Direction.from_client m = ground (
    arith,
    on_icmp_or_quic_iff p m,
    is_empty_iff (blacklisted_sni domains (tcp_payload p)),
    blacklisted_sni_iff (tcp_payload p),
  )

  pub after_hello :
      (hello : IpPacket) (m : Memory)
      → is_tcp hello ≡ true
      → is_ipv4 hello ≡ true
      → blacklisted_sni domains (tcp_payload hello) ≢ []
      → domain_blacklist clock domains hello Direction.from_client m ≡ (
        none,
        remember_ipv4_address clock
            (dst_ipv4 hello)
            (blacklisted_sni domains (tcp_payload hello))
            m,
      )
  unfolding domain_blacklist on_tcp
  after_hello hello m tcp ipv4 sni =
      ground (arith, is_empty_iff (blacklisted_sni domains (tcp_payload hello)))
