-- ===== src/Itch/Messages.antt =====
-- The packed structs of include/itch5/messages.hpp: a layout and a record for each, and for those
-- that the parser reads a view of raw bytes, which is what its `reinterpret_cast` gives.
pub mod Orders
pub mod Changes
pub mod Administrative
pub mod Auctions
