-- ===== src/Utils.antt =====
-- src/utils: byte arrays and bit counts.
pub mod Bytes
pub mod Bits
