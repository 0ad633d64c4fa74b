-- ===== src/Obfuscator.antt =====
-- fptn/src/fptn-protocol-lib/https/obfuscator: payloads in the shape of TLS application data records.
pub mod Tls
pub mod Tls2
