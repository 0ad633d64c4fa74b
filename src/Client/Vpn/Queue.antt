-- ===== src/Client/Vpn/Queue.antt =====
-- HandleOnPacketsFromWebSocket and ProcessWebSocketPackets of fptn/src/fptn-client/vpn/vpn_manager.cpp, with
-- the plugins in the order of fptn/src/fptn-client/fptn-client-cli.cpp.
pub mod Delivered
use ftpn.Packet.{IpPacket}
use ftpn.Packet.Access.{Access, ok, ◌>>=◌}
use ftpn.Client.Vpn.{VpnManager}
use ftpn.Client.Blacklist.{Blacklist, handle_blacklist}
use ftpn.Client.Split.{RoutingPolicy, Routed, handle_packet}
use ftpn.Prelude.{
  ℕ, ◌+◌, ◌*◌, Bool, true, false, not, ◌&&◌, ◌||◌, Option, none, some, List, [], ◌∷◌, ◌++◌, leb,
  length, if◌then◌else◌,
}

abbrev pub max_queue_size : ℕ
max_queue_size = 1024 * 16

-- The loop that queues what is not null.
unfoldable pub push_all : List (Option IpPacket) → List IpPacket → List IpPacket
push_all [] queue = queue
push_all (none ∷ packets) queue = push_all packets queue
push_all (some p ∷ packets) queue = push_all packets (queue ++ p ∷ [])

abbrev pub no_packets : List (Option IpPacket) → Bool
no_packets [] = true
no_packets (p ∷ packets) = false

unfoldable pub handle_on_packets_from_web_socket : List (Option IpPacket) → VpnManager → VpnManager
unfolding push_all
handle_on_packets_from_web_socket packets m =
    if not m.running || no_packets packets
    then m
    else if leb max_queue_size (length m.ws_packet_queue)
    then m
    else record m { ws_packet_queue = push_all packets m.ws_packet_queue }

-- What the plugins keep: the blacklist, and what the split tunnelling has asked the route manager for,
-- the last first.
pub record Plugins : Type 0 where
  pub blacklist : Blacklist
  pub routed : List Routed

-- plugin->HandlePacket
abbrev pub Plugin : Type 0
Plugin = IpPacket → Plugins → Access (Plugins × Option IpPacket × Bool)

-- The loop over the plugins.
unfoldable pub run_plugins :
    List Plugin → Option IpPacket → Plugins → Access (Plugins × Option IpPacket)
run_plugins [] packet s = ok (s, packet)
run_plugins (plugin ∷ rest) none s = ok (s, none)
run_plugins (plugin ∷ rest) (some p) s = do
  r ← plugin p s
  if r.2 then ok (r.0, r.1) else run_plugins rest r.1 r.0

abbrev pub push_some : Option IpPacket → List IpPacket → List IpPacket
push_some none out = out
push_some (some p) out = p ∷ out

-- The loop over a batch: what is left to send.
unfoldable pub process_batch :
    List Plugin → List IpPacket → Plugins → Access (Plugins × List IpPacket)
unfolding run_plugins
process_batch plugins [] s = ok (s, [])
process_batch plugins (p ∷ batch) s = do
  r ← run_plugins plugins (some p) s
  rest ← process_batch plugins batch r.0
  ok (rest.0, push_some r.1 rest.1)

abbrev pub is_nonempty : List IpPacket → Bool
is_nonempty [] = false
is_nonempty (p ∷ out) = true

-- SendBatch of what is left; `takes` is what the device answers.
unfoldable pub send_batch : Bool → List IpPacket → VpnManager → VpnManager
send_batch takes out m =
    if is_nonempty out
    then if m.running && m.virtual_net_interface && takes
      then record m { to_tun_sent = m.to_tun_sent + length out; to_tun = out ∷ m.to_tun }
      else record m { to_tun_dropped = m.to_tun_dropped + length out }
    else m

-- A turn of the loop of ProcessWebSocketPackets, behind the wait.
unfoldable pub process_web_socket_packets :
    List Plugin → Bool → Plugins → VpnManager → Access (Plugins × VpnManager)
unfolding process_batch send_batch
process_web_socket_packets plugins takes s m = do
  r ← process_batch plugins m.ws_packet_queue s
  ok (r.0, send_batch takes r.1 (record m { ws_packet_queue = [] }))

module _ (to_text : ℕ → List ℕ) (partial_match : List ℕ → List ℕ → Bool)
    (blacklist_rules domains : List (List ℕ)) (apple : Bool) (policy : RoutingPolicy) where
  unfoldable pub blacklist_plugin : Plugin
  unfolding handle_blacklist
  blacklist_plugin p s = do
    r ← handle_blacklist to_text partial_match blacklist_rules p s.blacklist
    ok (record s { blacklist = r.0 }, r.1, r.2)

  unfoldable pub split_plugin : Plugin
  unfolding handle_packet
  split_plugin p s = do
    r ← handle_packet apple domains policy p.bytes
    ok (record s { routed = r ∷ s.routed }, some p, r.triggered)

  abbrev pub client_plugins : List Plugin
  client_plugins = blacklist_plugin ∷ split_plugin ∷ []
