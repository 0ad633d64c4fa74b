-- ===== src/Tunnel/Pool.antt =====
-- RollingTunnel of fptn/src/fptn-protocol-lib/connection/strategies/rolling_tunnel/rolling_tunnel.h:
-- the pool and Send. Pointers may be null. A websocket client is a number; whether it is started or
-- stopped is what it answers at the time. Times are nanoseconds.
pub mod Send
mod Runs
use ftpn.Prelude.{
  ℕ, zero, suc, ◌+◌, ◌%◌, Bool, true, false, not, ◌&&◌, ◌||◌, Option, none, some, List, [], ◌∷◌,
  length, get_elem?, ltb, leb, ◌==◌, if◌then◌else◌,
}
use ftpn.Packet.{IpPacket, is_tcp, is_udp, src_port}

-- Channel
pub record Channel : Type 0 where
  pub connection_id : ℕ
  pub close_at : ℕ
  pub client : Option ℕ

-- What the clients answer.
pub record Answers : Type 0 where
  pub is_started : ℕ → Bool
  pub is_stopped : ℕ → Bool

-- A spawned RepairConnection that has not ended.
pub record Repair : Type 0 where
  pub lifetime_seconds : ℕ
  pub replaced_id : ℕ

-- What the repair that runs waits for: the channel of its new client, polled that often.
pub record Opening : Type 0 where
  pub channel : Channel
  pub polls : ℕ

-- `repairs` are the spawned repairs; `retiring` are the spawned coroutines that stop channels and have not
-- run, the first first. `created` are the clients that were made, `stopped` those whose Stop was called
-- and `lost` those that an exception dropped, the last first; `notifications` counts the calls of the
-- callback.
pub record Tunnel : Type 0 where
  pub running : Bool
  pub connections : List (Option Channel)
  pub connected_notified : Bool
  pub repair_in_flight : Bool
  pub connection_id_counter : ℕ
  pub round_robin_cursor : ℕ
  pub last_spawn_time : ℕ
  pub repairs : List Repair
  pub opening : Option Opening
  pub retiring : List (List (Option Channel))
  pub created : List ℕ
  pub stopped : List ℕ
  pub lost : List ℕ
  pub notifications : ℕ

abbrev pub size_limit : ℕ
size_limit = 18446744073709551616

-- The channel's client, if neither pointer is null.
abbrev pub client_of : Option Channel → Option ℕ
client_of none = none
client_of (some c) = c.client

abbrev pub client_started : Answers → Option ℕ → Bool
client_started a none = false
client_started a (some c) = a.is_started c

abbrev pub is_ready : Answers → Option Channel → Bool
is_ready a channel = client_started a (client_of channel)

unfoldable pub any_ready : Answers → List (Option Channel) → Bool
any_ready a [] = false
any_ready a (c ∷ cs) = is_ready a c || any_ready a cs

-- The loop of Send from number `i` on, of which `left` are left: the client to send through.
unfoldable pub send_loop : Answers → List (Option Channel) → ℕ → ℕ → ℕ → Option ℕ
send_loop a pool start zero i = none
send_loop a pool start (suc left) i =
    let rest = send_loop a pool start left (i + 1) in
    elim (get_elem? pool ((start + i) % size_limit % length pool)) [
      | none ↦ none
      | some channel ↦ if is_ready a channel then client_of channel else rest
    ]

abbrev pub by_port : IpPacket → Bool
by_port p = is_tcp p || is_udp p

-- `none` is the result false, `some` the client whose Send gives the result.
unfoldable pub send : Answers → Option IpPacket → Tunnel → Tunnel × Option ℕ
unfolding send_loop
send a none t = (t, none)
send a (some p) t =
    if not t.running || length t.connections == 0
    then (t, none)
    else if by_port p
    then (t, send_loop a t.connections (src_port p) (length t.connections) 0)
    else (
      record t { round_robin_cursor = (t.round_robin_cursor + 1) % size_limit },
      send_loop a t.connections t.round_robin_cursor (length t.connections) 0,
    )

unfoldable pub is_connected : Answers → Tunnel → Bool
unfolding any_ready
is_connected a t = any_ready a t.connections

unfoldable pub is_pool_empty : Tunnel → Bool
is_pool_empty t = length t.connections == 0
