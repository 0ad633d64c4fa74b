-- ===== src/Tunnel.antt =====
-- fptn/src/fptn-protocol-lib/connection/strategies/rolling_tunnel: the pool of the client's
-- connections to the server, each with a lifetime, that are replaced one at a time.
pub mod Pool
pub mod Lifetime
pub mod Manage
