-- ===== src/Itch.antt =====
-- include/itch5: the ITCH 5.0 messages and their zero-copy parser.
pub mod MsgType
pub mod Layout
pub mod Messages
pub mod Size
pub mod Wire
pub mod Callbacks
pub mod Parser
