-- ===== src/Dpdk.antt =====
-- include/dpdk: from raw packets and files to normalized messages in the ring buffer.
pub mod Config
pub mod Output
pub mod Handler
