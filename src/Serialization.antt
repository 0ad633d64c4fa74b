-- ===== src/Serialization.antt =====
-- fptn/src/fptn-protocol-lib/protocol: the check of a received frame before it is read. The frame's
-- reader and writer, and the field numbers and offsets that are generated with them, are parameters.
pub mod Validator
pub mod Batch
