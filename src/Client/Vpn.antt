-- ===== src/Client/Vpn.antt =====
-- fptn/src/fptn-client/vpn/vpn_manager.cpp: the state of the client's VPN manager, Start, Stop and
-- IsStarted. The threads run in the child modules; what the device and the HTTP client answer are
-- arguments, and the calls that are made on them are a list in the state.
pub mod Supervise
pub mod Lifecycle
pub mod Queue
mod Runs
use ftpn.Packet.{IpPacket}
use ftpn.Prelude.{
  ℕ, zero, suc, ◌+◌, Bool, true, false, not, ◌&&◌, ◌||◌, List, [], ◌∷◌, ◌++◌, if◌then◌else◌,
}

-- Calls on the route manager, the HTTP client and the device.
pub data Call : Type 0 where
  routes_apply routes_clean http_start http_stop tun_start tun_stop : Call
  backoff : ℕ → Call

-- `http_client` and `virtual_net_interface` say that the pointers of config_ are set. `full_restart_count`
-- is the variable of Supervise. `calls` has the last call first; `to_tun` are the batches that the device
-- took, the last one first.
pub record VpnManager : Type 0 where
  pub running : Bool
  pub ever_connected : Bool
  pub gave_up : Bool
  pub reconnecting : Bool
  pub reconnect_attempt : ℕ
  pub full_restart_count : ℕ
  pub http_client : Bool
  pub virtual_net_interface : Bool
  pub route_manager : Bool
  pub ws_packet_queue : List IpPacket
  pub to_tun_sent : ℕ
  pub to_tun_dropped : ℕ
  pub to_tun : List (List IpPacket)
  pub calls : List Call

-- The constructor, over the pointers of the configuration.
abbrev pub new_manager : Bool → Bool → Bool → VpnManager
new_manager http_client virtual_net_interface route_manager = record {
  running = false;
  ever_connected = false;
  gave_up = false;
  reconnecting = false;
  reconnect_attempt = 0;
  full_restart_count = 0;
  http_client = http_client;
  virtual_net_interface = virtual_net_interface;
  route_manager = route_manager;
  ws_packet_queue = [];
  to_tun_sent = 0;
  to_tun_dropped = 0;
  to_tun = [];
  calls = [];
}

abbrev pub max_tun_open_attempts : ℕ
max_tun_open_attempts = 5

-- The attempts to open the device; `opens` answers the one of a number.
unfoldable pub open_loop : (ℕ → Bool) → ℕ → ℕ → List Call → List Call × Bool
open_loop opens zero i calls = (calls, false)
open_loop opens (suc left) i calls =
    let rest = open_loop opens left (suc i) (tun_start ∷ calls) in
    if opens i then (tun_start ∷ calls, true) else rest

unfoldable pub open_tun : (ℕ → Bool) → VpnManager → List Call × Bool
unfolding open_loop
open_tun opens m =
    if m.virtual_net_interface
    then open_loop opens max_tun_open_attempts 1 m.calls
    else (m.calls, false)

unfoldable pub start : (ℕ → Bool) → VpnManager → VpnManager × Bool
unfolding open_tun
start opens m =
    if m.running || not m.http_client
    then (m, false)
    else let (calls, tun_opened) = open_tun opens m in
      if tun_opened
      then (
        record m {
          running = true;
          calls = http_start ∷ (if m.route_manager then routes_apply ∷ calls else calls);
        },
        true,
      )
      else (record m { running = true; calls = calls }, false)

-- Stop, with both threads ended.
unfoldable pub stop : VpnManager → VpnManager × Bool
stop m =
    if not m.running
    then (m, false)
    else let stopped = if m.virtual_net_interface then tun_stop ∷ m.calls else m.calls in
      (
        record m {
          running = false;
          http_client = false;
          virtual_net_interface = false;
          calls = if m.http_client then http_stop ∷ stopped else stopped;
        },
        true,
      )

-- IsStarted, where the lock is free; `client_started` is what the HTTP client answers.
unfoldable pub is_started : Bool → VpnManager → Bool
is_started client_started m =
    if not m.running || m.gave_up
    then false
    else if m.ever_connected
    then true
    else m.http_client && client_started
