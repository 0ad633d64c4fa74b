-- ===== src/Handshake.antt =====
-- The server's answer to a prober: fptn/src/fptn-server/web/handshake/handshake_cache_manager.cpp and the
-- flight test of fptn/src/common/network/utils.h.
pub mod Flight
pub mod Hello
pub mod Cache
mod Runs
