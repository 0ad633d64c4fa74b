-- ===== src/Client/Runs.antt =====
-- The client's rules on small lists and on a DNS answer for a.b.
use ftpn.Packet.Access.{Returns}
use ftpn.Packet.Runs.{dns_packet}
use ftpn.Filter.DomainBlacklist.{get_blacklisted_domain}
use ftpn.Filter.DomainBlacklist.Suffix.{IsBlacklisted}
use ftpn.Client.Rules.{normalize_domain_rule, is_domain_matched, is_domain_matched_iff}
use ftpn.Client.AdBlock.{parse_blocklist_line, is_blocked}
use ftpn.Client.Split.{RoutingPolicy, handle_packet, RoutedFor, handle_packet-RoutedFor}
use ftpn.Prelude.{ℕ, ◌≡◌, ◌≢◌, ◌↔◌, refl, true, false, List, [], ◌∷◌, ◌++◌}

-- a.b
abbrev domain : List ℕ
domain = b'a' ∷ b'.' ∷ b'b' ∷ []

-- x.a.b
abbrev below : List ℕ
below = b'x' ∷ b'.' ∷ domain

rule_is_normalized :
    normalize_domain_rule (
      b' ' ∷ b'D' ∷ b'o' ∷ b'm' ∷ b'a' ∷ b'i' ∷ b'n' ∷ b':' ∷ b'A' ∷ b'.' ∷ b'b' ∷ b'.' ∷ b' ' ∷ [])
    ≡ domain
unfolding normalize_domain_rule
rule_is_normalized = refl

parsed_line :
    parse_blocklist_line
      (λ s. s)
      (b'0' ∷ b'.' ∷ b'0' ∷ b'.' ∷ b'0' ∷ b'.' ∷ b'0' ∷ b' ' ∷ domain
        ++ (b' ' ∷ b'#' ∷ b'!' ∷ 13 ∷ []))
    ≡ domain
unfolding parse_blocklist_line
parsed_line = refl

parsed_comment : parse_blocklist_line (λ s. s) (b'!' ∷ domain) ≡ []
unfolding parse_blocklist_line
parsed_comment = refl

parsed_local_name :
    parse_blocklist_line (λ s. s) (domain ++ (b'.' ∷ b'l' ∷ b'o' ∷ b'c' ∷ b'a' ∷ b'l' ∷ [])) ≡ []
unfolding parse_blocklist_line
parsed_local_name = refl

blocked_below : is_blocked (domain ∷ []) below ≡ true
unfolding is_blocked
blocked_below = refl

matched_below : is_domain_matched ((b'b' ∷ []) ∷ []) below ≡ true
unfolding is_domain_matched
matched_below = refl

-- A listed name without a dot blocks nothing.
not_blocked : is_blocked ((b'b' ∷ []) ∷ []) below ≡ false
unfolding is_blocked
not_blocked = refl

is_domain_matched_iff_example :
    ((is_domain_matched (domain ∷ []) below ≡ true) ↔ IsBlacklisted (domain ∷ []) below)
    × ((is_domain_matched (domain ∷ []) below ≡ true)
        ↔ (get_blacklisted_domain (domain ∷ []) below ≢ []))
is_domain_matched_iff_example = is_domain_matched_iff (domain ∷ []) below

handle_packet-RoutedFor_example :
    Returns
      (handle_packet false (domain ∷ []) RoutingPolicy.exclude_from_vpn dns_packet)
      (RoutedFor false (domain ∷ []) RoutingPolicy.exclude_from_vpn dns_packet)
handle_packet-RoutedFor_example =
    handle_packet-RoutedFor false (domain ∷ []) RoutingPolicy.exclude_from_vpn dns_packet
