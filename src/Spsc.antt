-- ===== src/Spsc.antt =====
-- include/spsc/ring_buffer.hpp: the single-producer single-consumer ring buffer.
pub mod Ring
pub mod Queue
pub mod Refine
pub mod Threads
pub mod Batch
pub mod Spin
