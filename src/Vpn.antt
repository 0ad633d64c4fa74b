-- ===== src/Vpn.antt =====
-- fptn/src/fptn-server/vpn/manager.cpp: what the server does with each packet, from the tunnel device
-- to the clients and back.
pub mod Pipeline
pub mod Routing
mod Runs
