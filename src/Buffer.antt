-- ===== src/Buffer.antt =====
-- src/core/buffer.ts: writers that grow, and readers that check their bounds.
pub mod Text
pub mod Cursor
pub mod Writer
pub mod Reader
pub mod RoundTrip
