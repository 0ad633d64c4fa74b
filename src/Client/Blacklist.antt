-- ===== src/Client/Blacklist.antt =====
-- fptn/src/fptn-client/plugins/blacklist/domain_blacklist.cpp and DomainToRegex of
-- fptn/src/fptn-client/utils/utils.h. What RE2 accepts and matches, and the text of an IPv6 address, are
-- parameters.
pub mod History
use ftpn.Packet.{IpPacket, is_ipv4, is_ipv6, src_ipv4, src_ipv6, to_uint128}
use ftpn.Packet.Access.{Access, ok, ◌>>=◌}
use ftpn.Packet.Dns.Answers.{is_dns, get_dns_domain, get_dns_ipv4_addresses, get_dns_ipv6_addresses}
use ftpn.Filter.DomainBlacklist.{is_empty, same_domain, text_key}
use ftpn.Client.Rules.{normalize_domain_rule}
use ftpn.Prelude.{
  ℕ, ◌≡◌, ◌↔◌, refl, arith, Bool, true, false, Option, none, some, List, [], ◌∷◌, ◌++◌, any, Key,
  number_key, ◌==◌, if◌then◌else◌,
}

-- The loop of DomainToRegex: a dot is written \.
unfoldable pub escape : List ℕ → List ℕ
escape [] = []
escape (c ∷ s) = if c == 46 then 92 ∷ 46 ∷ escape s else c ∷ escape s

unfoldable pub domain_to_regex : List ℕ → List ℕ
unfolding normalize_domain_rule escape
domain_to_regex pattern =
    let domain = normalize_domain_rule pattern in
    if is_empty domain
    then []
    else (b'(' ∷ b'?' ∷ b':' ∷ b'^' ∷ b'|' ∷ 92 ∷ b'.' ∷ b')' ∷ []) ++ (escape domain ++ b'$' ∷ [])

-- The rules that the constructor keeps.
unfoldable pub load_regexes : (List ℕ → Bool) → List (List ℕ) → List (List ℕ)
unfolding domain_to_regex
load_regexes re_ok [] = []
load_regexes re_ok (rule ∷ rules) =
    let rest = load_regexes re_ok rules in
    let pattern = domain_to_regex rule in
    if is_empty pattern then rest else if re_ok pattern then pattern ∷ rest else rest

-- The addresses to block: IPv4 as numbers, IPv6 as texts.
pub record Blacklist : Type 0 where
  pub ipv4_addresses : List ℕ
  pub ipv6_addresses : List (List ℕ)

-- The loops over the addresses of an answer: a new one is inserted. Both sets have this loop.
unfoldable pub insert_all {ℓ} :
    {K : Type ℓ} ⦃k : Key K⦄ → (List ℕ → K) → List (List ℕ) → List K → List K
insert_all text [] known = known
insert_all ⦃k⦄ text (a ∷ addresses) known =
    insert_all text addresses (if any (λ m. k.same m (text a)) known then known else text a ∷ known)

module _ (to_text : ℕ → List ℕ) where
  module _ (partial_match : List ℕ → List ℕ → Bool) (rules : List (List ℕ)) where
    abbrev pub Handled : Type 0
    Handled = Blacklist × Option IpPacket × Bool

    -- A DNS message for a domain that a rule matches.
    unfoldable pub remember_answer : IpPacket → Blacklist → Access Handled
    unfolding insert_all to_uint128 same_domain
    remember_answer p b = do
      ipv4 ← get_dns_ipv4_addresses p.bytes
      ipv6 ← get_dns_ipv6_addresses p.bytes
      ok (
        record {
          ipv4_addresses = insert_all (λ a. to_uint128 a 0) ipv4 b.ipv4_addresses;
          ipv6_addresses = insert_all (λ a. to_text (to_uint128 a 0)) ipv6 b.ipv6_addresses;
        },
        some p,
        true,
      )

    unfoldable pub handle_answer : IpPacket → Option (List ℕ) → Blacklist → Access Handled
    unfolding remember_answer
    handle_answer p none b = ok (b, some p, false)
    handle_answer p (some domain) b =
        if any (λ rule. partial_match domain rule) rules
        then remember_answer p b
        else ok (b, some p, false)

    -- The source address is one to block.
    unfoldable pub is_from_blocked : IpPacket → Blacklist → Bool
    unfolding same_domain
    is_from_blocked p b =
        if is_ipv4 p
        then any (λ n. n == src_ipv4 p) b.ipv4_addresses
        else if is_ipv6 p
        then any (λ s. same_domain s (to_text (src_ipv6 p))) b.ipv6_addresses
        else false

    -- The branches of HandlePacket on IsDns.
    unfoldable pub handle_by_dns : Bool → IpPacket → Blacklist → Access Handled
    unfolding handle_answer is_from_blocked
    handle_by_dns true p b = do domain ← get_dns_domain p.bytes; handle_answer p domain b
    handle_by_dns false p b =
        ok (if is_from_blocked p b then (b, none, true) else (b, some p, false))

    unfoldable pub handle_blacklist : IpPacket → Blacklist → Access Handled
    unfolding handle_by_dns
    handle_blacklist p b = do dns ← is_dns p.bytes; handle_by_dns dns p b
