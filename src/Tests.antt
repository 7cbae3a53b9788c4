-- ===== src/Tests.antt =====
-- Runs on concrete inputs, a module for each part of the program.
pub mod Common
pub mod Mold
pub mod Spsc
pub mod Itch
pub mod Dpdk
pub mod Threads
pub mod Orders
pub mod Delivery
pub mod Streams
pub mod Main
pub mod Feed
pub mod Spin
