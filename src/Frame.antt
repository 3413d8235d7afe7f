-- ===== src/Frame.antt =====
-- src/frame: the messages of the wire.
pub mod Codec
pub mod Control
pub mod Parser
pub mod Extensions
