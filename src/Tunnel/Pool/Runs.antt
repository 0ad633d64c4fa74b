-- ===== src/Tunnel/Pool/Runs.antt =====
-- A pool of three slots in which only the last one is ready.
use ftpn.Packet.{IpPacket}
use ftpn.Tunnel.Pool.{Channel, Answers, Tunnel, send, is_connected}
use ftpn.Tunnel.Pool.Send.{Stands, send-is_connected}
use ftpn.Prelude.{ℕ, ◌≡◌, ◌⊎◌, refl, true, false, Option, none, some, List, [], ◌∷◌, arith, ◌==◌}

abbrev pool : List (Option Channel)
pool =
    none
    ∷ some (record { connection_id = 1; close_at = 9; client = some 4 })
    ∷ some (record { connection_id = 2; close_at = 9; client = some 5 })
    ∷ []

abbrev tunnel : Tunnel
tunnel = record {
  running = true;
  connections = pool;
  connected_notified = true;
  repair_in_flight = false;
  connection_id_counter = 2;
  round_robin_cursor = 7;
  last_spawn_time = 0;
  repairs = [];
  created = 5 ∷ 4 ∷ [];
  stopped = [];
  lost = [];
  opening = none;
  retiring = [];
  notifications = 1;
}

abbrev answers : Answers
answers = record { is_started = λ c. c == 5; is_stopped = λ c. false }

-- An ICMP packet goes by the cursor, from slot 1 on.
abbrev packet : IpPacket
packet = record { bytes = 69 ∷ []; client_id = 0 }

send-is_connected_example :
    ((is_connected answers tunnel ≡ false) × ((send answers (some packet) tunnel).1 ≡ none))
    ⊎ ((is_connected answers tunnel ≡ true)
        × ((c : ℕ) × ((send answers (some packet) tunnel).1 ≡ some c)
            × (answers.is_started c ≡ true)
            × Stands tunnel.connections c))
unfolding ftpn.Packet.is_tcp ftpn.Packet.is_udp
send-is_connected_example = send-is_connected answers packet tunnel refl (omega arith)

sends_through_5 : (send answers (some packet) tunnel).1 ≡ some 5
unfolding send ftpn.Packet.is_tcp ftpn.Packet.is_udp
sends_through_5 = refl
