-- ===== src/Vpn/Runs.antt =====
-- Packets to and from client 2, whose session holds 10.0.0.5, behind the history of the table's runs.
use ftpn.Packet.Access.{Access, ok}
use ftpn.Packet.{IpPacket, is_ipv4, dst_ipv4}
use ftpn.Packet.Rewrite.Kept.{WholeIpv4, Rewritten}
use ftpn.Filter.Manager.{Filter, PassesUnchanged}
use ftpn.TrafficShaper.{LeakyBucket}
use ftpn.Nat.Multiplexer.{Multiplexer, contains}
use ftpn.Nat.Table.{Table, new_table}
use ftpn.Nat.Table.Isolation.{reached}
use ftpn.Nat.Table.Runs.{config, config-IsValid, blank, ticking, connect, history}
use ftpn.Vpn.Pipeline.{World, to_client_packet, from_client_packet}
use ftpn.Vpn.Routing.{HandsOn, to_client_packet-reached, from_client_packet-Rewritten}
use ftpn.Prelude.{
  Bool, number_key, ℕ, ◌≡◌, ◌≢◌, inr, refl, true, Option, none, some, [], ◌∷◌, arith, byte,
  find_key, string_key,
}

-- A filter that passes everything on.
abbrev pass_all : Filter Bool
pass_all p d s = (some p, s)

abbrev no_shaper : ℕ → Option LeakyBucket
no_shaper i = none

-- From 10.0.0.2 to 10.0.0.5.
abbrev packet : IpPacket
packet = record {
  bytes = 69 ∷ 0 ∷ 0 ∷ 20 ∷ 0 ∷ 0 ∷ 0 ∷ 0 ∷ 64 ∷ 0 ∷ 0 ∷ 0 ∷ 10 ∷ 0 ∷ 0 ∷ 2 ∷ 10 ∷ 0 ∷ 0 ∷ 5 ∷ [];
  client_id = 2;
}

is_v4 : is_ipv4 packet ≡ true
unfolding is_ipv4
is_v4 = refl

packet-WholeIpv4 : WholeIpv4 packet.bytes
packet-WholeIpv4 = record {
  are_bytes = ground arith;
  version = refl;
  long = omega arith;
  fits = omega arith;
}

lives : byte packet.bytes 8 ≢ 0
lives e = absurd (omega (arith, e))

abbrev table : Table
table = reached config config-IsValid ticking blank history

abbrev world : World Bool
world = record { table = table; shaper = no_shaper; filters = true }

to_client_packet-reached_example :
    HandsOn
      (λ x.
        (r : ℕ) × (find_key (table.cell r).session_id table.session_to_mplx ≡ some r)
        × ((table.cell r).fake_client_ipv4 ≡ dst_ipv4 packet)
        × (contains (table.cell r).receiving x.0 ≡ true))
      (to_client_packet pass_all 1 (some packet) world)
to_client_packet-reached_example =
    to_client_packet-reached pass_all 1 config config-IsValid ticking blank history packet no_shaper
      true is_v4

pass_all-PassesUnchanged : PassesUnchanged pass_all
pass_all-PassesUnchanged p d s = inr refl

session : Multiplexer
session = record blank { session_id = "t"; fake_client_ipv4 = 167772165 }

abbrev small_world : World Bool
small_world = record world {
  table = record (new_table blank config) { client_to_mplx = (2, 1) ∷ []; cell = λ _. session };
}

from_client_packet-Rewritten_example :
    HandsOn
      (Rewritten 12 (small_world.table.cell 1).fake_client_ipv4 packet)
      (from_client_packet pass_all 1 (some packet) small_world)
unfolding session find_key
from_client_packet-Rewritten_example =
    from_client_packet-Rewritten pass_all 1 packet small_world 1 pass_all-PassesUnchanged refl refl
      packet-WholeIpv4 lives (omega arith)

-- It is handed on to a client that can receive.
abbrev receiver : Access (World Bool × Option (ℕ × IpPacket)) → Option ℕ
receiver x = elim x [ ok r ↦ elim r.1 [ none ↦ none | some q ↦ some q.0 ] | _ ↦ none ]

abbrev receiving_world : World Bool
receiving_world = record world {
  table = record (new_table blank config) {
    ipv4_to_mplx = (167772165, 1) ∷ [];
    cell = λ _. record blank {
      disable_checksum_calculation = true;
      receiving = record { params = connect 2 "t" "bob"; accepted_at = 0 } ∷ [];
    };
  };
}

handed_to_2 : receiver (to_client_packet pass_all 1 (some packet) receiving_world) ≡ some 2
unfolding to_client_packet is_ipv4 ftpn.Vpn.Pipeline.session_to_client find_key dst_ipv4
    ftpn.Vpn.Pipeline.within_limit ftpn.Vpn.Pipeline.deliver
    ftpn.Nat.Multiplexer.next_receiver_client_id ftpn.Packet.is_tcp ftpn.Packet.is_udp
    ftpn.Nat.Multiplexer.Rewrite.change_ip_address_to_client_ip ftpn.Vpn.Pipeline.filter_to_client
handed_to_2 = refl
