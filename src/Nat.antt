-- ===== src/Nat.antt =====
-- fptn/src/fptn-server/nat: client connections, the multiplexer of a logical session, and the table
-- that lends each session a pair of virtual addresses.
pub mod Connection
pub mod Multiplexer
pub mod Table
