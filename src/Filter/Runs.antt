-- ===== src/Filter/Runs.antt =====
-- Example packets through the filters.
use ftpn.Packet.{
  IpPacket, is_ipv4, is_tcp, is_udp, is_icmpv4, is_icmpv6, is_quic_initial, dst_port, dst_ipv4,
  tcp_payload, udp_payload,
}
use ftpn.Filter.Manager.{Direction, apply}
use ftpn.Filter.AntiScan.{AntiScan, anti_scan}
use ftpn.Filter.AntiScan.Blocks.{anti_scan_iff}
use ftpn.Filter.AntiSpam.{anti_spam, is_abuse_udp_port}
use ftpn.Filter.AntiSpam.Ports.{anti_spam_iff}
use ftpn.Filter.BitTorrent.{bit_torrent, is_peer_port, is_dht, is_utp_syn, is_udp_tracker}
use ftpn.Filter.BitTorrent.Signatures.{bit_torrent_iff}
use ftpn.Filter.DomainBlacklist.{
  Memory, domain_blacklist, get_blacklisted_domain, blacklisted_sni, same_domain, suffix_loop,
  behind_dot,
}
use ftpn.Filter.DomainBlacklist.Blocking.{BlockedHello, blacklisted_sni_iff, domain_blacklist_iff}
use ftpn.Filter.DomainBlacklist.Remembered.Flows.{behind, flow_blocked_after_hello}
use ftpn.Filter.Server.{from_client_filters, from_client_filters_iff}
use ftpn.Packet.Access.{read, read_u16, read_bytes}
use ftpn.Packet.Tls.{is_tls_client_hello, get_tls_sni, extension_loop, extension_pass}
use ftpn.Packet.Dns.{dns_ptr}
use ftpn.Packet.Dns.Answers.{to_lower_ascii, is_dns_mx_query}
use ftpn.Prelude.{
  ℕ, ◌≤◌, ◌*◌, ◌≡◌, refl, inl, inr, true, none, some, List, [], ◌∷◌, ◌++◌, arith, replicate,
  find_key, number_key,
}

-- The 20 bytes of an IPv4 header with a protocol and a destination 10.0.0.`host`.
abbrev ipv4_header : ℕ → ℕ → List ℕ
ipv4_header protocol host =
    0x45 ∷ 0 ∷ 0 ∷ 40 ∷ 0 ∷ 0 ∷ 0 ∷ 0 ∷ 64 ∷ protocol ∷ 0 ∷ 0 ∷ 192 ∷ 168 ∷ 0 ∷ 2 ∷ 10 ∷ 0 ∷ 0
    ∷ host ∷ []

-- A TCP packet to a port, without payload.
abbrev tcp_packet : ℕ → IpPacket
tcp_packet port = record {
  bytes = ipv4_header 6 9 ++ 48 ∷ 57 ∷ 0 ∷ port ∷ replicate 8 0 ++ 0x50 ∷ replicate 7 0;
  client_id = 1;
}

anti_spam_iff_example : (anti_spam {S = ℕ} (tcp_packet 25) Direction.from_client 0).0 ≡ none
unfolding is_tcp dst_port
anti_spam_iff_example =
    (anti_spam_iff (tcp_packet 25) Direction.from_client 0).0.1 (refl, inl (refl, inl refl))

-- A UDP packet to port 6881, with two bytes of payload.
abbrev peer_packet : IpPacket
peer_packet = record {
  bytes = ipv4_header 17 9 ++ 48 ∷ 57 ∷ 26 ∷ 225 ∷ 0 ∷ 10 ∷ 0 ∷ 0 ∷ 1 ∷ 2 ∷ [];
  client_id = 1;
}

bit_torrent_iff_example : (bit_torrent {S = ℕ} peer_packet Direction.from_client 0).0 ≡ none
unfolding is_tcp is_udp dst_port
bit_torrent_iff_example =
    (bit_torrent_iff peer_packet Direction.from_client 0).0.1
      (refl, inr (refl, refl, inl (omega arith, omega arith)))

-- The server 10.0.0.1 in the network 10.0.0.0/24.
abbrev scan : AntiScan
scan = record {
  server_ipv4 = 167772161;
  server_ipv4_net = 167772160;
  server_ipv4_mask = 24;
  server_ipv6 = 5;
  server_ipv6_net = 4;
  server_ipv6_mask = 127;
}

abbrev ping : ℕ → IpPacket
ping host = record { bytes = ipv4_header 1 host ++ 8 ∷ 0 ∷ []; client_id = 1 }

-- A client may ping the server, and no other address of its network.
anti_scan_iff_example : (anti_scan scan {S = ℕ} (ping 1) Direction.from_client 0).0 ≡ some (ping 1)
unfolding is_ipv4 dst_ipv4
anti_scan_iff_example =
    (anti_scan_iff scan 655360 2 (ping 1) Direction.from_client 0 refl refl).0.1
      (inl (refl, inl refl))

ping_of_neighbour : (anti_scan scan {S = ℕ} (ping 9) Direction.from_client 0).0 ≡ none
unfolding anti_scan is_ipv4 dst_ipv4
ping_of_neighbour = refl

-- "b.c" and its subdomain "a.b.c".
abbrev listed : List ℕ
listed = b'b' ∷ 46 ∷ b'c' ∷ []

abbrev subdomain : List ℕ
subdomain = b'a' ∷ 46 ∷ listed

abbrev domains : List (List ℕ)
domains = listed ∷ []

abbrev clock : ℕ → ℕ
clock i = i * 1000

abbrev memory : Memory
memory = record {
  ipv4_addresses = (167772169, record { domain = listed; expires_at = 5 }) ∷ [];
  ipv6_addresses = [];
  ticks = 0;
}

domain_blacklist_iff_example :
    (domain_blacklist clock domains (ping 9) Direction.from_client memory).0 ≡ none
unfolding is_tcp is_ipv4 is_icmpv4 dst_ipv4 find_key is_quic_initial udp_payload
domain_blacklist_iff_example =
    (domain_blacklist_iff clock domains (ping 9) Direction.from_client memory).1
      (refl, inr (refl, refl, inl (refl, refl, (omega arith, (λ e. absurd (ground (arith, e)))))))

-- A ClientHello for "a.b.c".
abbrev hello_payload : List ℕ
hello_payload =
    0x16 ∷ 3 ∷ 1 ∷ 0 ∷ 0 ∷ 1 ∷ replicate 37 0
    ++ 0 ∷ 0 ∷ 2 ∷ 0x13 ∷ 1 ∷ 1 ∷ 0 ∷ 0 ∷ 14 ∷ 0 ∷ 0 ∷ 0 ∷ 10 ∷ 0 ∷ 8 ∷ 0 ∷ 0 ∷ 5 ∷ subdomain

abbrev hello_packet : IpPacket
hello_packet = record {
  bytes =
      ipv4_header 6 9 ++ 48 ∷ 57 ∷ 1 ∷ 187 ∷ replicate 8 0 ++ 0x50 ∷ replicate 7 0 ++ hello_payload;
  client_id = 1;
}

hello_payload_found : tcp_payload hello_packet ≡ some hello_payload
unfolding tcp_payload
hello_payload_found = refl

hello_blacklisted : blacklisted_sni domains (tcp_payload hello_packet) ≡ listed
unfolding tcp_payload blacklisted_sni is_tls_client_hello read read_u16 get_tls_sni extension_loop
    extension_pass read_bytes get_blacklisted_domain suffix_loop to_lower_ascii same_domain
    behind_dot
hello_blacklisted = refl

hello_blocked : BlockedHello clock domains (tcp_payload hello_packet)
hello_blocked =
    (blacklisted_sni_iff clock domains (tcp_payload hello_packet)).0
      (λ e. absurd (ground (arith, e, hello_blacklisted)))

-- In the meantime the client pings the address.
abbrev meantime : List (IpPacket × Direction)
meantime = (ping 9, Direction.from_client) ∷ []

read_twice :
    (behind clock domains meantime
      (domain_blacklist clock domains hello_packet Direction.from_client memory).1).ticks
    ≡ 2
unfolding behind is_tcp is_ipv4 is_icmpv4 dst_ipv4 is_quic_initial udp_payload tcp_payload
    is_tls_client_hello read read_u16 get_tls_sni extension_loop extension_pass read_bytes
    get_blacklisted_domain suffix_loop to_lower_ascii same_domain behind_dot find_key
    ftpn.Filter.DomainBlacklist.on_icmp_or_quic ftpn.Filter.DomainBlacklist.get_blocked_ipv4_domain
    ftpn.Filter.DomainBlacklist.look_up ftpn.Filter.DomainBlacklist.on_tcp blacklisted_sni
    ftpn.Filter.DomainBlacklist.remember_ipv4_address ftpn.Prelude.assign
    ftpn.Filter.DomainBlacklist.tick_if_known
read_twice = refl

steady : (i j : ℕ) → i ≤ j → clock i ≤ clock j
steady i j h = omega (arith, h)

flow_blocked_after_hello_example :
    let first = domain_blacklist clock domains hello_packet Direction.from_client memory in
    (first.0 ≡ none)
    × ((domain_blacklist clock domains
          (ping 9)
          Direction.from_client
          (behind clock domains meantime first.1)).0
        ≡ none)
unfolding is_tcp is_ipv4 is_icmpv4 dst_ipv4 is_quic_initial udp_payload
flow_blocked_after_hello_example =
    flow_blocked_after_hello clock domains hello_packet (ping 9) memory meantime steady refl refl
      hello_blocked refl refl refl refl (omega (arith, read_twice))

abbrev web_packet : IpPacket
web_packet = record { bytes = 0x45 ∷ replicate 8 0 ++ 17 ∷ replicate 30 0; client_id = 1 }

from_client_filters_iff_example :
    (apply
      (from_client_filters scan clock domains true true)
      web_packet
      Direction.from_client
      memory).0
    ≡ some web_packet
unfolding bit_torrent anti_spam anti_scan domain_blacklist is_tcp is_udp is_peer_port dst_port
    udp_payload is_dht is_utp_syn is_udp_tracker is_abuse_udp_port is_dns_mx_query dns_ptr dst_ipv4
    is_quic_initial is_icmpv4 is_icmpv6
from_client_filters_iff_example =
    (from_client_filters_iff scan clock domains true true web_packet Direction.from_client memory).1
      ((λ _. refl), (λ _. refl), refl, refl)
