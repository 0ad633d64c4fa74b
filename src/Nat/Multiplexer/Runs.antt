-- ===== src/Nat/Multiplexer/Runs.antt =====
-- A session with two connections.
use ftpn.Packet.{IpPacket}
use ftpn.Nat.Connection.{ConnectParams, Clock, IsSteady, is_sending, is_receiving, is_expired}
use ftpn.Nat.Multiplexer.{Multiplexer, update_connections_status, contains}
use ftpn.Prelude.{ℕ, ◌*◌, ◌≡◌, refl, false, [], ◌∷◌, ◌++◌, arith, replicate}

abbrev params : ℕ → ℕ → ConnectParams
params client_id ttl_ms = record {
  client_id = client_id;
  request = record {
    url = "";
    jwt_auth_token = "t";
    session_id = "s";
    connection_weight = 1;
    send_duration_ms = 0;
    ttl_ms = ttl_ms;
    client_ipv4 = 1;
    client_tun_vpn_ipv4 = 2;
    client_tun_vpn_ipv6 = 3;
  };
  user = record { username = "u"; bandwidth_bites_seconds = 8000 };
}

-- Connection 1 stays, connection 2 lives for a millisecond.
abbrev session : Multiplexer
session = record {
  username = "u";
  session_id = "s";
  fake_client_ipv4 = 4;
  fake_client_ipv6 = 5;
  shaper_to_client = 0;
  shaper_from_client = 1;
  disable_checksum_calculation = false;
  sending = record { params = params 1 0; accepted_at = 0 } ∷ [];
  receiving =
      record { params = params 1 0; accepted_at = 0 }
      ∷ record { params = params 2 1; accepted_at = 0 }
      ∷ [];
  round_robin_cursor = 0;
}

abbrev now : Clock
now k = k * 1000000

now-IsSteady : IsSteady now
now-IsSteady i j le = omega arith

update_example : (update_connections_status now 1 session).1 ≡ 2 ∷ []
unfolding update_connections_status is_expired is_sending is_receiving contains
update_example = refl

-- A TCP packet to a port.
abbrev tcp_packet : ℕ → IpPacket
tcp_packet port = record {
  bytes = 0x45 ∷ replicate 8 0 ++ 6 ∷ replicate 12 0 ++ 0 ∷ port ∷ replicate 16 0;
  client_id = 1;
}
