-- ===== src/Client.antt =====
-- fptn/src/fptn-client: the domain rules of the client, its ad blocker and its split tunnelling.
pub mod Rules
pub mod AdBlock
pub mod Split
pub mod Blacklist
pub mod Vpn
mod Runs
