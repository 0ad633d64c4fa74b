-- ===== src/Filter.antt =====
-- fptn/src/fptn-server/filter: the packet filters of the server and the chain that applies them.
pub mod Manager
pub mod AntiScan
pub mod AntiSpam
pub mod BitTorrent
pub mod DomainBlacklist
pub mod Server
mod Runs
