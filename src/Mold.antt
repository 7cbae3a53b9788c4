-- ===== src/Mold.antt =====
-- include/moldudp64: the session layer that wraps ITCH messages.
pub mod Header
pub mod Gap
pub mod Session
pub mod Manager
