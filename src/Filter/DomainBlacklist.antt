-- ===== src/Filter/DomainBlacklist.antt =====
-- fptn/src/fptn-server/filter/filters/domain_blacklist: no connections to blacklisted domains. A
-- domain is the bytes of its name, [] the empty string; an address is a number; `clock i` is the value
-- of the steady clock at the i-th time that it is read, in milliseconds.
pub mod Suffix
pub mod Blocking
pub mod Remembered
use ftpn.Packet.{
  IpPacket, is_ipv4, is_ipv6, is_tcp, is_icmpv4, is_icmpv6, is_quic_initial, dst_ipv4, dst_ipv6,
  tcp_payload, to_uint128,
}
use ftpn.Packet.Access.{value_or}
use ftpn.Packet.Dns.Answers.{is_dns, get_dns_domain, get_dns_ipv4_addresses, get_dns_ipv6_addresses}
use ftpn.Packet.Tls.{is_tls_client_hello, get_tls_sni}
use ftpn.Filter.Manager.{Direction, Filter}
use ftpn.Prelude.{
  ℕ, zero, suc, ◌+◌, ◌-◌, Bool, true, false, not, ◌&&◌, ◌||◌, Option, none, some, List, [], ◌∷◌,
  length, ltb, leb, ◌==◌, if◌then◌else◌, find_key, erase_key, assign, number_key, any, Key, ◌≡◌,
  ◌↔◌, refl, arith,
}

-- kAddressTtl, one hour
abbrev pub address_ttl : ℕ
address_ttl = 3600000

unfoldable pub is_space : ℕ → Bool
is_space c = c == 32 || (leb 9 c && leb c 13)

unfoldable pub to_lower : ℕ → ℕ
to_lower c = if leb 65 c && leb c 90 then c + 32 else c

-- The loop of Normalize: up to a comment, without white space, in lower case.
unfoldable pub normalize_loop : List ℕ → List ℕ
unfolding is_space to_lower
normalize_loop [] = []
normalize_loop (c ∷ raw) =
    let rest = normalize_loop raw in
    if c == 35 then [] else if is_space c then rest else to_lower c ∷ rest

-- `if (!out.empty() && out.back() == '.') out.pop_back();`
unfoldable pub drop_last_dot : List ℕ → List ℕ
drop_last_dot [] = []
drop_last_dot (c ∷ []) = if c == 46 then [] else c ∷ []
drop_last_dot (c ∷ d ∷ out) = c ∷ drop_last_dot (d ∷ out)

unfoldable pub normalize : List ℕ → List ℕ
unfolding normalize_loop drop_last_dot
normalize raw = drop_last_dot (normalize_loop raw)

abbrev pub is_empty : List ℕ → Bool
is_empty [] = true
is_empty (c ∷ s) = false

-- The constructor: the set of the normalized domains.
unfoldable pub load_domains : List (List ℕ) → List (List ℕ)
unfolding normalize
load_domains [] = []
load_domains (raw ∷ domains) =
    let rest = load_domains domains in
    let domain = normalize raw in if is_empty domain then rest else domain ∷ rest

unfoldable pub same_domain : List ℕ → List ℕ → Bool
same_domain [] [] = true
same_domain [] (d ∷ ds) = false
same_domain (c ∷ cs) [] = false
same_domain (c ∷ cs) (d ∷ ds) = c == d && same_domain cs ds

pub same_domain_iff : (s t : List ℕ) → (same_domain s t ≡ true) ↔ (s ≡ t)
unfolding same_domain
same_domain_iff [] [] = (λ _. refl, λ _. refl)
same_domain_iff [] (d ∷ t) = (λ h. absurd (ground (arith, h)), λ h. absurd (ground (arith, h)))
same_domain_iff (c ∷ s) [] = (λ h. absurd (ground (arith, h)), λ h. absurd (ground (arith, h)))
same_domain_iff (c ∷ s) (d ∷ t) =
    let (there, back) = same_domain_iff s t in
    (λ h. ground (arith, there (ground (arith, h))), λ h. ground (arith, back (ground (arith, h))))

-- The equality of texts.
instance abbrev pub text_key : Key (List ℕ)
text_key = record { same = same_domain; same_iff = same_domain_iff }

-- What stands behind the first dot: find('.') and remove_prefix.
unfoldable pub behind_dot : List ℕ → Option (List ℕ)
behind_dot [] = none
behind_dot (c ∷ s) = let rest = behind_dot s in if c == 46 then some s else rest

pub record Blocked : Type 0 where
  pub domain : List ℕ
  pub expires_at : ℕ

pub record Memory : Type 0 where
  pub ipv4_addresses : List (ℕ × Blocked)
  pub ipv6_addresses : List (ℕ × Blocked)
  pub ticks : ℕ

module _ (domains : List (List ℕ)) where
  -- The loop over the suffixes; each pass shortens the suffix.
  unfoldable pub suffix_loop : ℕ → List ℕ → List ℕ
  suffix_loop zero suffix = []
  suffix_loop (suc i) suffix =
      if is_empty suffix
      then []
      else if any (same_domain suffix) domains
      then suffix
      else elim (behind_dot suffix) [ none ↦ [] | some rest ↦ suffix_loop i rest ]

  unfoldable pub get_blacklisted_domain : List ℕ → List ℕ
  get_blacklisted_domain domain = suffix_loop (suc (length domain)) domain

  -- `if (domain_opt.has_value())`
  abbrev pub blacklisted_name : Option (List ℕ) → List ℕ
  blacklisted_name none = []
  blacklisted_name (some domain) = get_blacklisted_domain domain

  -- The domain of the server name in the payload, if the payload is a ClientHello with one and the
  -- domain is blacklisted; [] otherwise.
  unfoldable pub blacklisted_sni : Option (List ℕ) → List ℕ
  blacklisted_sni none = []
  blacklisted_sni (some payload) =
      if value_or false (is_tls_client_hello payload)
      then blacklisted_name (value_or none (get_tls_sni payload))
      else []

-- The shared body of GetBlockedIPv4Domain and GetBlockedIPv6Domain on one of the two maps: the
-- domain, and the map with the entry erased or its time extended.
unfoldable pub look_up : ℕ → List (ℕ × Blocked) → ℕ → List ℕ × List (ℕ × Blocked)
look_up address entries now = elim (find_key address entries) [
  | none ↦ ([], entries)
  | some e ↦
      (if leb e.expires_at now
        then ([], erase_key address entries)
        else (e.domain, assign address (record e { expires_at = now + address_ttl }) entries))
]

-- The clock is read for an address that is known only.
unfoldable pub tick_if_known : ℕ → List (ℕ × Blocked) → ℕ → ℕ
tick_if_known address entries ticks = elim (find_key address entries) [
  | none ↦ ticks
  | some _ ↦ suc ticks
]

module _ (clock : ℕ → ℕ) where
  unfoldable pub remember_ipv4_address : ℕ → List ℕ → Memory → Memory
  remember_ipv4_address address domain m = record m {
    ipv4_addresses =
        assign address (record { domain = domain; expires_at = clock m.ticks + address_ttl })
          m.ipv4_addresses;
    ticks = suc m.ticks;
  }

  unfoldable pub remember_ipv6_address : ℕ → List ℕ → Memory → Memory
  remember_ipv6_address address domain m = record m {
    ipv6_addresses =
        assign address (record { domain = domain; expires_at = clock m.ticks + address_ttl })
          m.ipv6_addresses;
    ticks = suc m.ticks;
  }

  unfoldable pub get_blocked_ipv4_domain : ℕ → Memory → List ℕ × Memory
  get_blocked_ipv4_domain address m =
      let (domain, entries) = look_up address m.ipv4_addresses (clock m.ticks) in
      (
        domain,
        record m {
          ipv4_addresses = entries;
          ticks = tick_if_known address m.ipv4_addresses m.ticks;
        },
      )

  unfoldable pub get_blocked_ipv6_domain : ℕ → Memory → List ℕ × Memory
  get_blocked_ipv6_domain address m =
      let (domain, entries) = look_up address m.ipv6_addresses (clock m.ticks) in
      (
        domain,
        record m {
          ipv6_addresses = entries;
          ticks = tick_if_known address m.ipv6_addresses m.ticks;
        },
      )

  unfoldable pub remember_all_ipv4 : List (List ℕ) → List ℕ → Memory → Memory
  remember_all_ipv4 [] domain m = m
  remember_all_ipv4 (a ∷ as') domain m =
      remember_all_ipv4 as' domain (remember_ipv4_address (to_uint128 a 0) domain m)

  unfoldable pub remember_all_ipv6 : List (List ℕ) → List ℕ → Memory → Memory
  remember_all_ipv6 [] domain m = m
  remember_all_ipv6 (a ∷ as') domain m =
      remember_all_ipv6 as' domain (remember_ipv6_address (to_uint128 a 0) domain m)

  module _ (domains : List (List ℕ)) where
    -- DNS: remember resolved addresses.
    unfoldable pub on_dns_answer : IpPacket → Memory → Memory
    on_dns_answer packet m =
        let blacklisted = blacklisted_name domains (value_or none (get_dns_domain packet.bytes)) in
        if not (value_or false (is_dns packet.bytes)) || is_empty blacklisted
        then m
        else remember_all_ipv6 (value_or [] (get_dns_ipv6_addresses packet.bytes)) blacklisted
            (remember_all_ipv4 (value_or [] (get_dns_ipv4_addresses packet.bytes)) blacklisted m)

    abbrev pub remember_destination : IpPacket → List ℕ → Memory → Memory
    remember_destination packet domain m =
        if is_ipv4 packet
        then remember_ipv4_address (dst_ipv4 packet) domain m
        else if is_ipv6 packet
        then remember_ipv6_address (dst_ipv6 packet) domain m
        else m

    -- TLS: block by SNI.
    unfoldable pub on_tcp : IpPacket → Memory → Option IpPacket × Memory
    on_tcp packet m =
        let blacklisted = blacklisted_sni domains (tcp_payload packet) in
        if is_empty blacklisted
        then (some packet, m)
        else (none, remember_destination packet blacklisted m)

    -- ICMP and QUIC: block by address.
    unfoldable pub on_icmp_or_quic : IpPacket → Memory → Option IpPacket × Memory
    on_icmp_or_quic packet m =
        let blocked4 = get_blocked_ipv4_domain (dst_ipv4 packet) m in
        let blocked6 = get_blocked_ipv6_domain (dst_ipv6 packet) m in
        if is_ipv4 packet
        then (if not (is_empty blocked4.0) && (is_quic_initial packet || is_icmpv4 packet)
            then (none, blocked4.1)
            else (some packet, blocked4.1))
        else if is_ipv6 packet
        then (if not (is_empty blocked6.0) && (is_quic_initial packet || is_icmpv6 packet)
            then (none, blocked6.1)
            else (some packet, blocked6.1))
        else (some packet, m)

    unfoldable pub domain_blacklist : Filter Memory
    domain_blacklist packet Direction.to_client m = (some packet, on_dns_answer packet m)
    domain_blacklist packet Direction.from_client m =
        if is_tcp packet
        then on_tcp packet m
        else if is_quic_initial packet || is_icmpv4 packet || is_icmpv6 packet
        then on_icmp_or_quic packet m
        else (some packet, m)
