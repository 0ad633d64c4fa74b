-- ===== src/Connection.antt =====
-- fptn/src/fptn-protocol-lib/connection/connection_manager/connection_manager.cpp: the client's connection
-- manager. Its state, and the parts of it that take an access token.
pub mod Login
pub mod Reconnect
mod Runs
