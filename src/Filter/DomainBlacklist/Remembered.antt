-- ===== src/Filter/DomainBlacklist/Remembered.antt =====
-- An entry for an address is kept by every packet that the filter sees before it expires.
pub mod Flows
use mathlib.Core.Path.{subst}
use ftpn.Packet.{
  IpPacket, is_ipv4, is_ipv6, is_tcp, is_icmpv4, is_icmpv6, is_quic_initial, dst_ipv4, dst_ipv6,
  tcp_payload, to_uint128,
}
use ftpn.Packet.Access.{value_or}
use ftpn.Packet.Dns.Answers.{is_dns, get_dns_domain, get_dns_ipv4_addresses, get_dns_ipv6_addresses}
use ftpn.Filter.Manager.{Direction}
use ftpn.Filter.DomainBlacklist.{
  Blocked, Memory, address_ttl, is_empty, remember_ipv4_address, remember_ipv6_address,
  remember_all_ipv4, remember_all_ipv6, look_up, tick_if_known, get_blocked_ipv4_domain,
  get_blocked_ipv6_domain, blacklisted_name, blacklisted_sni, on_dns_answer, remember_destination,
  on_tcp, on_icmp_or_quic, domain_blacklist,
}
use ftpn.Filter.DomainBlacklist.Blocking.{
  is_empty_iff, BlockedHello, blacklisted_sni_iff, domain_blacklist_iff, after_hello,
}
use ftpn.Prelude.{
  ℕ, ◌+◌, ◌<◌, ◌≤◌, ◌≡◌, ◌≢◌, refl, sym, ◌∙◌, inl, inr, true, false, not, Bool, ◌||◌, Option, none,
  some, List, [], ◌∷◌, arith, leb, ==_iff, ◌==◌, find_key, assign, erase_key, find_key-assign,
  find_key-erase_key, number_key, Option-cases, Bool-cases, if◌then◌else◌,
}

-- The entry of an IPv4 address with a domain, that does not expire before `limit`.
abbrev pub Held : ℕ → ℕ → List (ℕ × Blocked) → Type 0
Held limit address entries =
    (e : Blocked) × (find_key address entries ≡ some e) × (limit ≤ e.expires_at) × (e.domain ≢ [])

Held-assign :
    (limit address a : ℕ) (e : Blocked) (entries : List (ℕ × Blocked))
    → limit ≤ e.expires_at
    → e.domain ≢ []
    → Held limit address entries
    → Held limit address (assign a e entries)
Held-assign limit address a e entries late named (f, found, h, n) =
    elim (Bool-cases (a == address)) [
      | inl same ↦ (e, find_key-assign a address e entries ∙ rw same refl, late, named)
      | inr other ↦ (f, find_key-assign a address e entries ∙ rw other found, h, n)
    ]

Held-erase_key :
    (limit address a : ℕ) (entries : List (ℕ × Blocked))
    → (a == address) ≡ false
    → Held limit address entries
    → Held limit address (erase_key a entries)
Held-erase_key limit address a entries other (f, found, h, n) =
    (f, find_key-erase_key a address entries ∙ rw other found, h, n)

-- A look-up before the limit, which may extend the entry but does not erase it.
look_up-Held :
    (limit address a now : ℕ) (entries : List (ℕ × Blocked))
    → now < limit
    → limit ≤ now + address_ttl
    → Held limit address entries
    → Held limit address (look_up a entries now).1
unfolding look_up
look_up-Held limit address a now entries early late (f, found, h, n) =
    elim (Option-cases (find_key a entries)) [
      | inl e ↦ rw (look_up, e) (f, found, h, n)
      | inr (b, e) ↦ elim (Bool-cases (leb b.expires_at now)) [
        | inl over ↦
            rw (look_up, e, over)
              (Held-erase_key limit address a entries (other b e over) (f, found, h, n))
        | inr on ↦ elim (Bool-cases (a == address)) [
          | inl same ↦
              rw (look_up, e, on)
                (
                  record b { expires_at = now + address_ttl },
                  find_key-assign a address _ entries ∙ rw same refl,
                  late,
                  named b e same,
                )
          | inr differs ↦
              rw (look_up, e, on) (f, find_key-assign a address _ entries ∙ rw differs found, h, n)
        ]
      ]
    ]
  where
    entry : (b : Blocked) → find_key a entries ≡ some b → (a == address) ≡ true → f ≡ b
    entry b e same =
        let one : a ≡ address = (==_iff a address).0 same in
        let found' : find_key a entries ≡ some f =
          subst (λ x. find_key x entries ≡ some f) (sym one) found in
        cc (found', e)

    named : (b : Blocked) → find_key a entries ≡ some b → (a == address) ≡ true → b.domain ≢ []
    named b e same = subst (λ (x : Blocked). x.domain ≢ []) (entry b e same) n

    other :
        (b : Blocked)
        → find_key a entries ≡ some b
        → leb b.expires_at now ≡ true
        → (a == address) ≡ false
    other b e over = elim (Bool-cases (a == address)) [
      | inl same ↦
          let late' = subst (λ (x : Blocked). limit ≤ x.expires_at) (entry b e same) h in
          absurd (ground (arith, early, over, late'))
      | inr differs ↦ differs
    ]

tick_if_known-le : (a : ℕ) (entries : List (ℕ × Blocked)) (n : ℕ) → n ≤ tick_if_known a entries n
unfolding tick_if_known
tick_if_known-le a entries n = ground arith

module _ (clock : ℕ → ℕ) (address start : ℕ) (steady : (i j : ℕ) → i ≤ j → clock i ≤ clock j) where
  abbrev limit : ℕ
  limit = clock start + address_ttl

  -- Behind the start time goes on, and the entry is kept.
  abbrev Keeps : Memory → Memory → Type 0
  Keeps m u =
      (m.ticks ≤ u.ticks)
      × (start ≤ m.ticks
          → Held limit address m.ipv4_addresses
          → Held limit address u.ipv4_addresses)

  Keeps-same : (m : Memory) → Keeps m m
  Keeps-same m = (omega arith, λ _ h. h)

  Keeps-then : (m u v : Memory) → Keeps m u → Keeps u v → Keeps m v
  Keeps-then m u v (le, k) (le', k') =
      (omega (arith, le, le'), λ late h. k' (omega (arith, le, late)) (k late h))

  Keeps-if : (b : Bool) (m u v : Memory) → Keeps m u → Keeps m v → Keeps m (if b then u else v)
  Keeps-if true m u v h k = h
  Keeps-if false m u v h k = k

  remember_ipv4-Keeps :
      (a : ℕ) (domain : List ℕ) (m : Memory)
      → domain ≢ []
      → Keeps m (remember_ipv4_address clock a domain m)
  unfolding remember_ipv4_address
  remember_ipv4-Keeps a domain m named = (
    omega arith,
    λ late h.
        Held-assign limit address a
          (record { domain = domain; expires_at = clock m.ticks + address_ttl }) m.ipv4_addresses
          (omega (arith, steady start m.ticks late)) named h,
  )

  remember_ipv6-Keeps :
      (a : ℕ) (domain : List ℕ) (m : Memory) → Keeps m (remember_ipv6_address clock a domain m)
  unfolding remember_ipv6_address
  remember_ipv6-Keeps a domain m = (omega arith, λ _ h. h)

  remember_all_ipv4-Keeps :
      (as' : List (List ℕ)) (domain : List ℕ) (m : Memory)
      → domain ≢ []
      → Keeps m (remember_all_ipv4 clock as' domain m)
  unfolding remember_all_ipv4
  remember_all_ipv4-Keeps [] domain m named = Keeps-same m
  remember_all_ipv4-Keeps (a ∷ as') domain m named =
      let u = remember_ipv4_address clock (to_uint128 a 0) domain m in
      Keeps-then m u (remember_all_ipv4 clock as' domain u)
        (remember_ipv4-Keeps (to_uint128 a 0) domain m named)
        (remember_all_ipv4-Keeps as' domain u named)

  remember_all_ipv6-Keeps :
      (as' : List (List ℕ)) (domain : List ℕ) (m : Memory)
      → Keeps m (remember_all_ipv6 clock as' domain m)
  unfolding remember_all_ipv6
  remember_all_ipv6-Keeps [] domain m = Keeps-same m
  remember_all_ipv6-Keeps (a ∷ as') domain m =
      let u = remember_ipv6_address clock (to_uint128 a 0) domain m in
      Keeps-then m u (remember_all_ipv6 clock as' domain u)
        (remember_ipv6-Keeps (to_uint128 a 0) domain m) (remember_all_ipv6-Keeps as' domain u)

  -- A step at a time before the limit.
  abbrev KeepsEarly : Memory → Memory → Type 0
  KeepsEarly m u =
      (m.ticks ≤ u.ticks)
      × (clock m.ticks < limit
          → start ≤ m.ticks
          → Held limit address m.ipv4_addresses
          → Held limit address u.ipv4_addresses)

  Keeps-early : (m u : Memory) → Keeps m u → KeepsEarly m u
  Keeps-early m u (le, k) = (le, λ _. k)

  get_blocked_ipv4-Keeps : (a : ℕ) (m : Memory) → KeepsEarly m (get_blocked_ipv4_domain clock a m).1
  unfolding get_blocked_ipv4_domain
  get_blocked_ipv4-Keeps a m = (
    tick_if_known-le a m.ipv4_addresses m.ticks,
    λ early late h.
        look_up-Held limit address a (clock m.ticks) m.ipv4_addresses early
          (omega (arith, steady start m.ticks late)) h,
  )

  get_blocked_ipv6-Keeps : (a : ℕ) (m : Memory) → KeepsEarly m (get_blocked_ipv6_domain clock a m).1
  unfolding get_blocked_ipv6_domain
  get_blocked_ipv6-Keeps a m = (tick_if_known-le a m.ipv6_addresses m.ticks, λ _ _ h. h)

  module _ (domains : List (List ℕ)) where
    on_dns_answer-Keeps : (p : IpPacket) (m : Memory) → Keeps m (on_dns_answer clock domains p m)
    unfolding on_dns_answer
    on_dns_answer-Keeps p m =
        let domain = blacklisted_name domains (value_or none (get_dns_domain p.bytes)) in
        let v4 = value_or [] (get_dns_ipv4_addresses p.bytes) in
        let v6 = value_or [] (get_dns_ipv6_addresses p.bytes) in
        let u = remember_all_ipv4 clock v4 domain m in
        elim (Bool-cases (not (value_or false (is_dns p.bytes)) || is_empty domain)) [
          | inl e ↦ rw e (Keeps-same m)
          | inr e ↦
              let named : domain ≢ [] =
                λ n. absurd (ground (arith, e, (is_empty_iff domain).1 n)) in
              rw e (
                Keeps-then m u (remember_all_ipv6 clock v6 domain u)
                  (remember_all_ipv4-Keeps v4 domain m named) (remember_all_ipv6-Keeps v6 domain u))
        ]

    remember_destination-Keeps :
        (p : IpPacket) (domain : List ℕ) (m : Memory)
        → domain ≢ []
        → Keeps m (remember_destination clock domains p domain m)
    remember_destination-Keeps p domain m named =
        Keeps-if (is_ipv4 p) m _ _ (remember_ipv4-Keeps (dst_ipv4 p) domain m named)
          (Keeps-if (is_ipv6 p) m _ _ (remember_ipv6-Keeps (dst_ipv6 p) domain m) (Keeps-same m))

    on_tcp-Keeps : (p : IpPacket) (m : Memory) → Keeps m (on_tcp clock domains p m).1
    unfolding on_tcp
    on_tcp-Keeps p m = elim (Bool-cases (is_empty (blacklisted_sni domains (tcp_payload p)))) [
      | inl e ↦ rw e (Keeps-same m)
      | inr e ↦
          let named : blacklisted_sni domains (tcp_payload p) ≢ [] = λ n.
            absurd
              (ground (arith, e, (is_empty_iff (blacklisted_sni domains (tcp_payload p))).1 n)) in
          rw e (remember_destination-Keeps p _ m named)
    ]

    on_icmp_or_quic-Keeps :
        (p : IpPacket) (m : Memory) → KeepsEarly m (on_icmp_or_quic clock domains p m).1
    unfolding on_icmp_or_quic
    on_icmp_or_quic-Keeps p m =
        let u4 = (get_blocked_ipv4_domain clock (dst_ipv4 p) m).1 in
        let u6 = (get_blocked_ipv6_domain clock (dst_ipv6 p) m).1 in
        elim (Bool-cases (is_ipv4 p)) [
          | inl e ↦ rw e (either _ u4 m p (get_blocked_ipv4-Keeps (dst_ipv4 p) m))
          | inr e ↦ elim (Bool-cases (is_ipv6 p)) [
            | inl f ↦ rw (e, f) (either _ u6 m p (get_blocked_ipv6-Keeps (dst_ipv6 p) m))
            | inr f ↦ rw (e, f) (Keeps-early m m (Keeps-same m))
          ]
        ]
      where
        either :
            (b : Bool) (u m : Memory) (p : IpPacket)
            → KeepsEarly m u
            → let out : Option IpPacket × Memory = if b then (none, u) else (some p, u) in
              KeepsEarly m out.1
        either true u m p h = h
        either false u m p h = h

    pub filter-Keeps :
        (p : IpPacket) (d : Direction) (m : Memory)
        → KeepsEarly m (domain_blacklist clock domains p d m).1
    unfolding domain_blacklist
    filter-Keeps p Direction.to_client m =
        Keeps-early m (on_dns_answer clock domains p m) (on_dns_answer-Keeps p m)
    filter-Keeps p Direction.from_client m = elim (Bool-cases (is_tcp p)) [
      | inl e ↦ rw e (Keeps-early m (on_tcp clock domains p m).1 (on_tcp-Keeps p m))
      | inr e ↦ elim (Bool-cases (is_quic_initial p || is_icmpv4 p || is_icmpv6 p)) [
        | inl f ↦ rw (e, f) (on_icmp_or_quic-Keeps p m)
        | inr f ↦ rw (e, f) (Keeps-early m m (Keeps-same m))
      ]
    ]
