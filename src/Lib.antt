-- ===== src/Lib.antt =====
-- FPTN is a VPN. A client's traffic runs to the server in frames that look like TLS records; the
-- server groups the physical connections of a client into sessions, gives each session a virtual
-- IPv4 and IPv6 address, filters the packets and limits their rate. The client keeps a pool of
-- connections to the server that it replaces one at a time. This library models the core of the
-- server and of the protocol library and the client's rules on domains, from fptn/src.
--
-- How the parts interact. fptn/src/fptn-server/nat/table.cpp owns the sessions: a connection that
-- the web part accepts joins the session of its session id or opens a new one with a free pair of
-- addresses; a periodic sweep sorts the connections of each session by role and closes those
-- whose time is up. A packet from the tunnel device finds its session by the virtual address,
-- passes the to-client chain of filters and goes out through the connection that the multiplexer
-- chooses. A packet from a client passes the from-client chain. The obfuscators stand between the
-- socket and the websocket stream.
--
-- Files.
-- - Nat/Connection, Nat/Multiplexer, Nat/Table: fptn/src/fptn-server/nat. Table is the state of
--   the class, with a cell for each shared multiplexer object, so that the maps alias objects as
--   the source's shared pointers do. AddConnection is add_connection, DelConnectionByClientId
--   del_connection_by_client_id, ReleaseSessionIfEmpty release_session_if_empty;
--   UpdateConnectionsStatus is sweep and then retire, since the source gives up its lock in
--   between. Nat/Table/Preserved has the histories: any sequence of these steps. The clock is a
--   function from the number of a reading to a time; IsSteady says that it does not go back.
-- - Nat/Multiplexer/Rewrite: ChangeIPAddressToClientIP and ChangeIPAddressToFakeIP, over the
--   setters of Packet/Rewrite.
-- - Vpn: fptn/src/fptn-server/vpn/manager.cpp, the bodies of RunToClient and RunFromClient, which
--   compose the table, the shapers, the filters and the rewriting. The filters and what the
--   clocks say are arguments.
-- - Serialization: fptn/src/fptn-protocol-lib/protocol/yaff. Validator is YaffBatchValidator; the
--   generated field numbers and offsets are a record of parameters, and so is what the library
--   reads from a frame (Batch).
-- - Tunnel: fptn/src/fptn-protocol-lib/connection/strategies/rolling_tunnel. Pool has the state
--   and Send, Lifetime NextLifetimeSeconds, Manage the coroutines. Spawned repairs, the client
--   that a repair opens, spawned coroutines that have not run, stopped clients and calls of the
--   callback are part of the state; a step goes up to the next co_await, and
--   Tunnel/Manage/History has the histories of steps, exceptions among them. Tunnel/Manage/Places
--   says where a client can be.
-- - Address: fptn/src/common/network/ipv4_generator.h and ipv6_generator.h. An address is a
--   number.
-- - Packet: fptn/src/common/network/ip_packet.h; Packet/Dns its DNS getters; Packet/Tls the TLS
--   parsers and Packet/Checksum the checksums of fptn/src/common/network/ip_utils.h;
--   Packet/Rewrite the setters of the addresses. Packet/Access has the reads through pointers: a
--   read behind the last byte is a value of its own, out_of_bounds.
-- - Filter: fptn/src/fptn-server/filter, and in Filter/Server the chains that
--   fptn/src/fptn-server/fptn-server.cpp builds. A filter is a function of the packet, the
--   direction and a state; a null pointer is none.
-- - Obfuscator/Tls and Obfuscator/Tls2: fptn/src/fptn-protocol-lib/https/obfuscator/methods. The
--   random draws and, for the second, the time are arguments.
-- - TrafficShaper: fptn/src/fptn-server/traffic_shaper.
-- - Client: the client's rules on domains, in fptn/src/fptn-client. Rules is utils/utils.h with
--   Trim of fptn/src/common/utils/utils.h, AdBlock adblock/adblock.cpp, where the lower case of a
--   text under the user's locale is a parameter, and Split plugins/split/tunneling.cpp, where the
--   routes that the route manager is asked for are the result; Blacklist is
--   plugins/blacklist/domain_blacklist.cpp, with RE2 as a parameter. Client/Vpn is
--   vpn/vpn_manager.cpp: its state with Start and Stop, Supervise its supervisor over what each
--   pass sees, Queue the packets from the server through the plugins. Calls on the device, the
--   routes and the HTTP client are a list in the state.
-- - Connection: fptn/src/fptn-protocol-lib/connection/connection_manager. Login has Login and
--   GetDns over the answers of the server, with the JSON library as a parameter; Reconnect has
--   Run over turns that say what the clock shows and where Stop comes.
-- - Handshake: Cache is fptn/src/fptn-server/web/handshake/handshake_cache_manager.cpp, which
--   answers a prober with what the server of its SNI or of the default domain says. A call of
--   GetHandshake goes on in steps with one critical section at most, and Cache/History has the
--   histories in which the steps of several calls interleave; what the network does, and the
--   ClientHello for the default domain, are arguments, and no time passes between the two stores
--   of one call. Flight and Hello are the tests of flights and of complete hellos in
--   fptn/src/common/network/utils.h.
-- - User: fptn/src/common/user/common_user_manager.h, the user list of the server and of the
--   password tool. Text has the C++ streams' words, numbers and lines, File that the file gives
--   the list back, Login who can log in behind a change. The order in which the map is written is
--   that of the list.
-- - Prelude: lists, maps, bytes and tests that the parts share.
--
-- Fuel. The DNS name loops have the bounds 128 and 256 of the source. The extension loop of
-- get_tls_sni has one more pass than the record has bytes, and to run out of it counts as a read
-- out of bounds, which the result below excludes. The suffix loop of get_blacklisted_domain has
-- one more pass than the domain has bytes; its result below holds for every domain; the suffix
-- loops of the client do the same. The folding of a checksum has two passes, and
-- Packet/Checksum/Fold shows that it has ended then. The loop over a frame's packets runs on the
-- count that was read. A number is written with ten digits at most, which every int has. The
-- loops of Login and GetDns have the five attempts of the source; the loops of Run and of the
-- supervisor go over a list of turns, and the results below say how many turns are enough. The
-- loops of the tests of flights and hellos have a pass for every byte, and their results below
-- hold for any bytes; the reading loop of a fetch goes over the readings that the socket gives.
-- The search of deobfuscate recurses on the bytes that are left.
--
-- Not modelled: locks (a step is what happens while one is held; RepairConnection is one step
-- from its test of the running flag on), logging, allocation failure, sockets, threads, the web
-- part, the client's routing and user interface, and the writing of frames. The libraries that
-- the source calls are not modelled; names from DNS are those of the build without libidn2.
pub mod Prelude
pub mod Packet
pub mod Address
pub mod Filter
pub mod Handshake
pub mod Nat
pub mod Obfuscator
pub mod TrafficShaper
pub mod Vpn
pub mod Serialization
pub mod Tunnel
pub mod Client
pub mod Connection
pub mod User
