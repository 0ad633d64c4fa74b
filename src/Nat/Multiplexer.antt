-- ===== src/Nat/Multiplexer.antt =====
-- fptn/src/fptn-server/nat/connection_multiplexer: the connections of one logical session, in the
-- buckets of their roles. A vector is a list in the order of its indices. A traffic shaper is a
-- shared object, here the number that names it.
pub mod Roles
pub mod Receiver
pub mod Rewrite
mod Runs
use ftpn.Packet.{IpPacket, is_tcp, is_udp, dst_port}
use ftpn.Nat.Connection.{
  ConnectParams, ClientConnection, Clock, create, is_sending, is_receiving, is_expired,
}
use ftpn.Prelude.{
  ℕ, ◌+◌, ◌%◌, ◌≡◌, Bool, true, false, not, ◌&&◌, ◌||◌, Option, none, some, String, List, [], ◌∷◌,
  ◌++◌, ◌^◌, length, get_elem?, any, ◌==◌, if◌then◌else◌,
}

pub record Multiplexer : Type 0 where
  pub username : String
  pub session_id : String
  pub fake_client_ipv4 : ℕ
  pub fake_client_ipv6 : ℕ
  pub shaper_to_client : ℕ
  pub shaper_from_client : ℕ
  pub disable_checksum_calculation : Bool
  pub sending : List ClientConnection
  pub receiving : List ClientConnection
  pub round_robin_cursor : ℕ

-- HasClientId(connection, client_id)
abbrev pub is_client : ℕ → ClientConnection → Bool
is_client id c = c.params.client_id == id

unfoldable pub contains : List ClientConnection → ℕ → Bool
contains cs id = any (is_client id) cs

-- Remove: the first match only, and whether there was one.
unfoldable pub remove : List ClientConnection → ℕ → List ClientConnection × Bool
remove [] id = ([], false)
remove (c ∷ cs) id =
    let (rest, found) = remove cs id in if is_client id c then (cs, true) else (c ∷ rest, found)

unfoldable pub find_by_client_id : List ClientConnection → ℕ → Option ClientConnection
find_by_client_id [] id = none
find_by_client_id (c ∷ cs) id = if is_client id c then some c else find_by_client_id cs id

-- The two buckets, sending first.
abbrev pub Buckets : Type 0
Buckets = List ClientConnection × List ClientConnection

-- PlaceByRole reads the clock once for each role, the sending one first.
unfoldable pub place_by_role : Clock → ℕ → Buckets → ClientConnection → Buckets
place_by_role now k (sending, receiving) c = (
  (if is_sending c (now k) then sending ++ c ∷ [] else sending),
  (if is_receiving c (now (k + 1)) then receiving ++ c ∷ [] else receiving),
)

-- The constructor; reading k is that of ClientConnection::Create.
unfoldable pub construct : Clock → ℕ → ConnectParams → ℕ → ℕ → ℕ → ℕ → Multiplexer
construct now k params ipv4 ipv6 to_client from_client =
    let buckets = place_by_role now (k + 1) ([], []) (create now k params) in
    record {
      username = params.user.username;
      session_id = params.request.session_id;
      fake_client_ipv4 = ipv4;
      fake_client_ipv6 = ipv6;
      shaper_to_client = to_client;
      shaper_from_client = from_client;
      disable_checksum_calculation = false;
      sending = buckets.0;
      receiving = buckets.1;
      round_robin_cursor = 0;
    }

unfoldable pub has_client_id : Multiplexer → ℕ → Bool
has_client_id m id = contains m.sending id || contains m.receiving id

unfoldable pub add_client_connection : Clock → ℕ → ConnectParams → Multiplexer → Multiplexer × Bool
add_client_connection now k params m =
    if has_client_id m params.client_id
    then (m, false)
    else let buckets = place_by_role now (k + 1) (m.sending, m.receiving) (create now k params) in
      (record m { sending = buckets.0; receiving = buckets.1 }, true)

unfoldable pub del_connection_by_client_id : Multiplexer → ℕ → Multiplexer × Bool
del_connection_by_client_id m id =
    let (sending, from_sending) = remove m.sending id in
    let (receiving, from_receiving) = remove m.receiving id in
    (record m { sending = sending; receiving = receiving }, from_sending || from_receiving)

abbrev pub is_nil {ℓ} : {A : Type ℓ} → List A → Bool
is_nil [] = true
is_nil (x ∷ xs) = false

unfoldable pub is_empty : Multiplexer → Bool
is_empty m = is_nil m.sending && is_nil m.receiving

-- The first loop of UpdateConnectionsStatus: receivers that are not among the senders join them.
pub merge : List ClientConnection → List ClientConnection → List ClientConnection
merge connections [] = connections
merge connections (c ∷ receiving) =
    merge (if contains connections c.params.client_id then connections else connections ++ c ∷ [])
      receiving

-- The second loop. Connection i reads the clock at k + 3i (IsExpired), and at the next two readings
-- (PlaceByRole).
pub resort : Clock → ℕ → Buckets → List ℕ → List ClientConnection → Buckets × List ℕ
resort now k buckets expired [] = (buckets, expired)
resort now k buckets expired (c ∷ cs) =
    let dead = is_expired c (now k) in
    resort now (k + 3) (if dead then buckets else place_by_role now (k + 1) buckets c)
      (if dead then expired ++ c.params.client_id ∷ [] else expired) cs

unfoldable pub update_connections_status : Clock → ℕ → Multiplexer → Multiplexer × List ℕ
unfolding merge resort
update_connections_status now k m =
    let (buckets, expired) = resort now k ([], []) [] (merge m.sending m.receiving) in
    (record m { sending = buckets.0; receiving = buckets.1 }, expired)

-- NextReceiverClientId for a packet that is there (the null pointer has no receiver). The cursor is
-- a size_t.
unfoldable pub next_receiver_client_id : Multiplexer → IpPacket → Multiplexer × Option ℕ
next_receiver_client_id m packet =
    let by_port = is_tcp packet || is_udp packet in
    let start = if by_port then dst_port packet else m.round_robin_cursor in
    let m' =
      if by_port
      then m
      else record m { round_robin_cursor = (m.round_robin_cursor + 1) % 2 ^ 64 } in
    elim m.receiving [
      | [] ↦ (m, none)
      | c ∷ cs ↦ (
        m',
        elim (get_elem? (c ∷ cs) (start % length (c ∷ cs))) [
          | none ↦ none
          | some r ↦ some r.params.client_id
        ],
      )
    ]
