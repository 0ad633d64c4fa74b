-- ===== src/Client/Vpn/Runs.antt =====
-- A client whose device opens at the second attempt, and a blacklisted answer in the queue.
use ftpn.Packet.{IpPacket}
use ftpn.Packet.Access.{ok, ◌>>=◌, Returns}
use ftpn.Packet.Runs.{dns_packet}
use ftpn.Client.Vpn.{Call, VpnManager, new_manager, start, stop, is_started}
use ftpn.Client.Vpn.Supervise.{Sight, supervise}
use ftpn.Client.Vpn.Lifecycle.{
  Supervised, supervise-Supervised, NotConnected, count_not_started, GaveUp, supervise-GaveUp,
  start-refused,
}
use ftpn.Client.Vpn.Queue.{
  max_queue_size, handle_on_packets_from_web_socket, Plugins, process_web_socket_packets,
  client_plugins,
}
use ftpn.Client.Vpn.Queue.Delivered.{Kept, SentOrCounted, process_web_socket_packets-Kept}
use ftpn.Client.Blacklist.{domain_to_regex, handle_blacklist}
use ftpn.Client.Blacklist.History.{
  no_addresses, handle_all, Knows, Knows-nothing, DropsOrPasses, handle_blacklist-DropsOrPasses,
}
use ftpn.Client.Split.{RoutingPolicy}
use ftpn.Prelude.{
  ℕ, zero, suc, ◌≡◌, refl, Bool, true, false, none, List, [], ◌∷◌, ◌++◌, arith, ◌==◌, replicate,
  All,
}

abbrev at_second : ℕ → Bool
at_second i = i == 2

abbrev started : VpnManager
started = (start at_second (new_manager true true true)).0

abbrev connected : Sight
connected = record { cleared_at = none; http_connected = true; http_started = true }

abbrev dead : Sight
dead = record { cleared_at = none; http_connected = false; http_started = false }

abbrev coming_up : Sight
coming_up = record { cleared_at = none; http_connected = false; http_started = true }

opened : (start at_second (new_manager true true true)).1 ≡ true
unfolding start
opened = refl

supervise-Supervised_example : Supervised (supervise (dead ∷ dead ∷ connected ∷ dead ∷ []) started)
supervise-Supervised_example =
    supervise-Supervised at_second (dead ∷ dead ∷ connected ∷ dead ∷ []) opened

one_restart : (supervise (dead ∷ dead ∷ connected ∷ dead ∷ []) started).0.full_restart_count ≡ 1
unfolding start supervise
one_restart = refl

dead-NotConnected : (n : ℕ) → All NotConnected (replicate n dead)
dead-NotConnected zero = tt
dead-NotConnected (suc n) = ((refl, refl), dead-NotConnected n)

eleven_not_started : count_not_started (coming_up ∷ replicate 11 dead) ≡ 11
unfolding count_not_started
eleven_not_started = refl

supervise-GaveUp_example :
    let r = supervise (coming_up ∷ replicate 11 dead) started in
    GaveUp 11 r × (is_started true r.0 ≡ false)
supervise-GaveUp_example =
    supervise-GaveUp at_second (coming_up ∷ replicate 11 dead) true opened
      ((refl, refl), dead-NotConnected 11) (omega (arith, eleven_not_started))

not_opened : (start (λ i. false) (new_manager true true true)).1 ≡ false
unfolding start
not_opened = refl

start-refused_example :
    let m = (start (λ i. false) (new_manager true true true)).0 in
    (m.running ≡ true) × (start at_second m ≡ (m, false)) × ((start at_second (stop m).0).1 ≡ false)
start-refused_example = start-refused (λ i. false) at_second true true not_opened

-- (?:^|\.)b$
regex_of_b :
    domain_to_regex (b'B' ∷ b'.' ∷ [])
    ≡ b'(' ∷ b'?' ∷ b':' ∷ b'^' ∷ b'|' ∷ 92 ∷ b'.' ∷ b')' ∷ b'b' ∷ b'$' ∷ []
unfolding domain_to_regex
regex_of_b = refl

abbrev rule : List ℕ
rule = b'r' ∷ []

abbrev answer : IpPacket
answer = record { bytes = dns_packet; client_id = 1 }

-- A TCP packet from 1.2.3.4.
abbrev reply : IpPacket
reply = record {
  bytes = 0x45 ∷ replicate 8 0 ++ 6 ∷ 0 ∷ 0 ∷ 1 ∷ 2 ∷ 3 ∷ 4 ∷ replicate 24 0;
  client_id = 1;
}

handle_blacklist-DropsOrPasses_example :
    Returns
      (handle_all (λ n. n ∷ []) (λ domain re. true) (rule ∷ []) (answer ∷ []) no_addresses)
      λ b.
        Returns
          (handle_blacklist (λ n. n ∷ []) (λ domain re. true) (rule ∷ []) reply b)
          λ r. DropsOrPasses (λ n. n ∷ []) (λ domain re. true) (rule ∷ []) (answer ∷ []) reply r.1
handle_blacklist-DropsOrPasses_example =
    handle_blacklist-DropsOrPasses (λ n. n ∷ []) (λ domain re. true) (rule ∷ []) (answer ∷ []) reply

abbrev queued : VpnManager
queued = record (new_manager true true true) {
  running = true;
  ws_packet_queue = answer ∷ reply ∷ [];
}

abbrev fresh : Plugins
fresh = record { blacklist = no_addresses; routed = [] }

process_web_socket_packets-Kept_example :
    Returns
      (process_web_socket_packets
        (client_plugins
          (λ n. n ∷ [])
          (λ domain re. true)
          (rule ∷ [])
          []
          false
          RoutingPolicy.include_in_vpn)
        true
        fresh
        queued)
      λ r.
        (r.1.ws_packet_queue ≡ [])
        × Knows (λ n. n ∷ []) (λ domain re. true) (rule ∷ []) (reply ∷ answer ∷ []) r.0.blacklist
        × ((out : List IpPacket) × Kept
              (λ n. n ∷ [])
              (λ domain re. true)
              (rule ∷ [])
              []
              false
              RoutingPolicy.include_in_vpn
              []
              (answer ∷ reply ∷ [])
              out
            × SentOrCounted true out queued r.1)
process_web_socket_packets-Kept_example =
    process_web_socket_packets-Kept (λ n. n ∷ []) (λ domain re. true) (rule ∷ []) [] false
      RoutingPolicy.include_in_vpn [] true fresh queued
      (Knows-nothing (λ n. n ∷ []) (λ domain re. true) (rule ∷ []))

reply_dropped :
    (process_web_socket_packets
        (client_plugins
          (λ n. n ∷ [])
          (λ domain re. true)
          (rule ∷ [])
          []
          false
          RoutingPolicy.include_in_vpn)
        true
        fresh
        queued
      >>= λ r. ok r.1.to_tun)
    ≡ ok ((answer ∷ []) ∷ [])
unfolding process_web_socket_packets ftpn.Client.Vpn.Queue.blacklist_plugin
    ftpn.Client.Vpn.Queue.split_plugin ftpn.Packet.Dns.Answers.is_dns ftpn.Packet.Dns.dns_ptr
    ftpn.Packet.Dns.Answers.get_dns_domain ftpn.Packet.Dns.parse_dns_name
    ftpn.Packet.Dns.Answers.non_empty_name ftpn.Packet.Dns.Answers.get_dns_ipv4_addresses
    ftpn.Packet.Dns.Answers.get_dns_addresses ftpn.Packet.Dns.Answers.dns_answer_start
    ftpn.Packet.Dns.Answers.question_loop ftpn.Packet.Dns.Answers.question_pass
    ftpn.Packet.Dns.skip_dns_name ftpn.Packet.Dns.Answers.answer_loop
    ftpn.Packet.Dns.Answers.answer_pass ftpn.Packet.Dns.Answers.get_dns_ipv6_addresses
    ftpn.Packet.is_ipv4 ftpn.Packet.src_ipv4
reply_dropped = refl
