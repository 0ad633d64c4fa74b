-- ===== src/Nat/Table/Runs.antt =====
-- Runs of the table, and its theorems at concrete inputs.
use ftpn.Address.{ipv6_generator}
use ftpn.Nat.Connection.{ConnectParams, Clock, create, is_sending, is_receiving, is_expired}
use ftpn.Nat.Multiplexer
use ftpn.Nat.Multiplexer.{
  Multiplexer, construct, add_client_connection, has_client_id, contains, remove, place_by_role,
  is_empty, update_connections_status,
}
use ftpn.Nat.Table.{
  Config, Table, new_table, initial_ipv4, initial_ipv6, multiplexer_by_fake_ipv4,
  multiplexer_by_fake_ipv6, add_connection, del_connection_by_client_id, release_session_if_empty,
}
use ftpn.Nat.Table.Sweep.{sweep, retire}
use ftpn.Nat.Table.Invariant.{held}
use ftpn.Nat.Table.Isolation.{
  IsValidConfig, reached, sessions_isolated, addresses_conserved, lookup_by_address,
}
use ftpn.Nat.Table.Registration.{Registered, add_connection-Registered}
use ftpn.Nat.Table.Preserved.{Event, adds, dels, sweeps, retires, run}
use ftpn.Prelude.{
  Option, ℕ, ◌+◌, ◌≤◌, ◌≡◌, refl, false, some, String, List, [], ◌∷◌, count, arith, find_key,
  erase_key, emplace, number_key, string_key, ◌↔◌,
}

-- 10.0.0.0/29 and fd00::/120; the server is the first address of each.
abbrev pub config : Config
config = record {
  tun_ipv4 = 167772161;
  tun_ipv4_network = 167772160;
  tun_network_ipv4_mask = 29;
  tun_ipv6 = 336294682933583715844663186250927177729;
  tun_ipv6_network = 336294682933583715844663186250927177728;
  tun_network_ipv6_mask = 120;
}

pub config-IsValid : IsValidConfig config
unfolding ipv6_generator
config-IsValid = record {
  wide = omega arith;
  aligned = refl;
  fits4 = omega arith;
  above6 = omega arith;
  fits6 = omega arith;
}

abbrev pub blank : Multiplexer
blank = record {
  username = "";
  session_id = "";
  fake_client_ipv4 = 0;
  fake_client_ipv6 = 0;
  shaper_to_client = 0;
  shaper_from_client = 0;
  disable_checksum_calculation = false;
  sending = [];
  receiving = [];
  round_robin_cursor = 0;
}

abbrev pub ticking : Clock
ticking k = k

abbrev pub connect : ℕ → String → String → ConnectParams
connect id session user = record {
  client_id = id;
  request = record {
    url = "/fptn";
    jwt_auth_token = "token";
    session_id = session;
    connection_weight = 1;
    send_duration_ms = 0;
    ttl_ms = 0;
    client_ipv4 = 3232235777;
    client_tun_vpn_ipv4 = 167772426;
    client_tun_vpn_ipv6 = 1;
  };
  user = record { username = user; bandwidth_bites_seconds = 1000000 };
}

-- Two sessions of two users, a second connection of the first, one that leaves, and a sweep.
abbrev pub history : List Event
history =
    adds 0 (connect 1 "s" "ann") 0 1
    ∷ adds 3 (connect 2 "t" "bob") 2 3
    ∷ adds 6 (connect 3 "s" "ann") 4 5
    ∷ dels 1
    ∷ sweeps 9
    ∷ retires [] []
    ∷ []

initial_pool : initial_ipv4 config ≡ 167772166 ∷ 167772165 ∷ 167772164 ∷ 167772163 ∷ 167772162 ∷ []
unfolding initial_ipv4
initial_pool = refl

reached_sessions : List (String × ℕ)
unfolding run new_table find_key erase_key emplace initial_ipv4 initial_ipv6 add_connection
    del_connection_by_client_id release_session_if_empty sweep retire construct create
    add_client_connection Multiplexer.del_connection_by_client_id has_client_id contains remove
    place_by_role is_sending is_receiving is_empty is_expired update_connections_status
reached_sessions = (run ticking history (new_table blank config)).session_to_mplx

session_s : find_key "s" reached_sessions ≡ some 0
unfolding reached_sessions
session_s = refl

session_t : find_key "t" reached_sessions ≡ some 1
unfolding reached_sessions
session_t = refl

address_t :
    (run ticking history (new_table blank config)).ipv4_to_mplx
    ≡ (167772165, 1) ∷ (167772166, 0) ∷ []
unfolding reached_sessions
address_t = refl

sessions_isolated_example :
    let t = reached config config-IsValid ticking blank history in
    ((t.cell 0).fake_client_ipv4 ≡ (t.cell 1).fake_client_ipv4 → ◌≡◌ {A = String} "s" "t")
    × ((t.cell 0).fake_client_ipv6 ≡ (t.cell 1).fake_client_ipv6 → ◌≡◌ {A = String} "s" "t")
unfolding reached_sessions
sessions_isolated_example =
    sessions_isolated config config-IsValid ticking blank history "s" "t" 0 1 session_s session_t

addresses_conserved_example :
    let t = reached config config-IsValid ticking blank history in
    (count 167772166 t.free_ipv4 + held 167772166 t.ipv4_to_mplx
      ≡ count 167772166 (initial_ipv4 config))
    × (count 167772166 (initial_ipv4 config) ≤ 1)
    × (count 167772166 t.free_ipv6 + held 167772166 t.ipv6_to_mplx
        ≡ count 167772166 (initial_ipv6 config))
    × (count 167772166 (initial_ipv6 config) ≤ 1)
addresses_conserved_example =
    addresses_conserved config config-IsValid ticking blank history 167772166

lookup_by_address_example :
    let t = reached config config-IsValid ticking blank history in
    (multiplexer_by_fake_ipv4 167772165 t ≡ some 1 ↔ (
      (find_key (t.cell 1).session_id t.session_to_mplx ≡ some 1)
      × ((t.cell 1).fake_client_ipv4 ≡ 167772165)))
    × (multiplexer_by_fake_ipv6 167772165 t ≡ some 1 ↔ (
        (find_key (t.cell 1).session_id t.session_to_mplx ≡ some 1)
        × ((t.cell 1).fake_client_ipv6 ≡ 167772165)))
lookup_by_address_example =
    lookup_by_address config config-IsValid ticking blank history 167772165 1

-- A second connection of a session.
abbrev joining : Table × Option ℕ
joining =
    add_connection ticking 9 (connect 4 "t" "bob") 4 5
      (run ticking history (new_table blank config))

add_connection-Registered_example :
    Registered ticking 9
      (connect 4 "t" "bob")
      (run ticking history (new_table blank config))
      joining
unfolding reached_sessions
add_connection-Registered_example =
    add_connection-Registered ticking 9 (connect 4 "t" "bob") 4 5
      (run ticking history (new_table blank config)) refl
