-- ===== src/Nat/Connection.antt =====
-- fptn/src/fptn-server/nat/connect_params.h and client_connection: one physical connection and the
-- role that it has at a time. `now k` is the k-th reading of the steady clock, in nanoseconds; each
-- call of `Clock::now()` is a reading of its own. Durations stay in the range of std::chrono.
use ftpn.Packet.{max_client_id}
use ftpn.Prelude.{
  ℕ, ◌+◌, ◌*◌, ◌≤◌, ◌≡◌, Bool, true, not, ◌&&◌, ◌||◌, String, str_eq, arith, ltb, leb, ◌==◌,
  if◌then◌else◌,
}

pub record Request : Type 0 where
  pub url : String
  pub jwt_auth_token : String
  pub session_id : String
  pub connection_weight : ℕ
  pub send_duration_ms : ℕ
  pub ttl_ms : ℕ
  pub client_ipv4 : ℕ
  pub client_tun_vpn_ipv4 : ℕ
  pub client_tun_vpn_ipv6 : ℕ

pub record User : Type 0 where
  pub username : String
  pub bandwidth_bites_seconds : ℕ

pub record ConnectParams : Type 0 where
  pub client_id : ℕ
  pub request : Request
  pub user : User

-- An empty address is the default one, 0.
unfoldable pub validate : ConnectParams → Bool
validate c =
    not (c.client_id == max_client_id)
    && not (c.request.client_ipv4 == 0)
    && not (c.request.client_tun_vpn_ipv4 == 0)
    && not (c.request.client_tun_vpn_ipv6 == 0)
    && not (str_eq c.request.jwt_auth_token "")
    && not (str_eq c.request.session_id "")

pub record ClientConnection : Type 0 where
  pub params : ConnectParams
  pub accepted_at : ℕ

abbrev pub Clock : Type 0
Clock = ℕ → ℕ

-- The steady clock never goes back.
abbrev pub IsSteady : Clock → Type 0
IsSteady now = (i j : ℕ) → i ≤ j → now i ≤ now j

abbrev pub milliseconds : ℕ → ℕ
milliseconds n = n * 1000000

unfoldable pub create : Clock → ℕ → ConnectParams → ClientConnection
create now k params = record { params = params; accepted_at = now k }

module _ (c : ClientConnection) where
  unfoldable pub is_bidirectional : Bool
  is_bidirectional = c.params.request.send_duration_ms == 0 && c.params.request.ttl_ms == 0

  abbrev send_until : ℕ
  send_until = c.accepted_at + milliseconds c.params.request.send_duration_ms

  -- The roles at the time `t` of their clock reading.
  unfoldable pub is_sending : ℕ → Bool
  unfolding is_bidirectional
  is_sending t = if is_bidirectional then true else ltb t send_until

  unfoldable pub is_receiving : ℕ → Bool
  unfolding is_bidirectional
  is_receiving t = if is_bidirectional then true else leb send_until t

  unfoldable pub is_expired : ℕ → Bool
  is_expired t =
      not (c.params.request.ttl_ms == 0)
      && leb (c.accepted_at + milliseconds c.params.request.ttl_ms) t

  -- A connection that is no sender at one reading is a receiver at any later one.
  pub is_receiving_later : (t u : ℕ) → t ≤ u → (is_sending t || is_receiving u) ≡ true
  unfolding is_sending is_receiving
  is_receiving_later t u h = ground arith
