-- ===== src/Nat/Multiplexer/Rewrite/Runs.antt =====
-- A packet to and from a client whose tunnel address is 10.0.0.9, in a session with 10.8.0.4.
use ftpn.Packet.Access.{Returns}
use ftpn.Packet.{IpPacket}
use ftpn.Packet.Rewrite.Kept.{WholeIpv4, Rewritten}
use ftpn.Nat.Connection.{ClientConnection}
use ftpn.Nat.Multiplexer.{Multiplexer, find_by_client_id}
use ftpn.Nat.Multiplexer.Rewrite.{change_ip_address_to_fake_ip}
use ftpn.Nat.Multiplexer.Rewrite.Addresses.{change_ip_address_to_fake_ip-Rewritten}
use ftpn.Prelude.{◌≡◌, ◌≢◌, refl, false, some, [], ◌∷◌, arith, byte}

abbrev connection : ClientConnection
connection = record {
  params = record {
    client_id = 1;
    request = record {
      url = "";
      jwt_auth_token = "t";
      session_id = "s";
      connection_weight = 1;
      send_duration_ms = 0;
      ttl_ms = 0;
      client_ipv4 = 1;
      client_tun_vpn_ipv4 = 167772169;
      client_tun_vpn_ipv6 = 3;
    };
    user = record { username = "u"; bandwidth_bites_seconds = 8000 };
  };
  accepted_at = 0;
}

abbrev session : Multiplexer
session = record {
  username = "u";
  session_id = "s";
  fake_client_ipv4 = 168296452;
  fake_client_ipv6 = 5;
  shaper_to_client = 0;
  shaper_from_client = 1;
  disable_checksum_calculation = false;
  sending = [];
  receiving = connection ∷ [];
  round_robin_cursor = 0;
}

abbrev packet : IpPacket
packet = record {
  bytes =
      69 ∷ 0 ∷ 0 ∷ 28 ∷ 0 ∷ 0 ∷ 0 ∷ 0 ∷ 64 ∷ 17 ∷ 0 ∷ 0 ∷ 10 ∷ 0 ∷ 0 ∷ 1 ∷ 10 ∷ 0 ∷ 0 ∷ 2 ∷ 0 ∷ 53
      ∷ 0 ∷ 53 ∷ 0 ∷ 8 ∷ 0 ∷ 0 ∷ [];
  client_id = 7;
}

packet-WholeIpv4 : WholeIpv4 packet.bytes
packet-WholeIpv4 = record {
  are_bytes = ground arith;
  version = refl;
  long = omega arith;
  fits = omega arith;
}

lives : byte packet.bytes 8 ≢ 0
lives e = absurd (omega (arith, e))

found : find_by_client_id session.receiving 1 ≡ some connection
unfolding find_by_client_id
found = refl

change_ip_address_to_fake_ip-Rewritten_example :
    Returns
      (change_ip_address_to_fake_ip session packet)
      (Rewritten 12 session.fake_client_ipv4 packet)
change_ip_address_to_fake_ip-Rewritten_example =
    change_ip_address_to_fake_ip-Rewritten session packet refl packet-WholeIpv4 lives (omega arith)
