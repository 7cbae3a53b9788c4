-- ===== src/Common.antt =====
-- include/common: the types that every component shares, and the byte order of the wire.
pub mod Types
pub mod Endian
