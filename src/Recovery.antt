-- ===== src/Recovery.antt =====
-- src/client/internal/reconnect.ts and backoff.ts: how a lost connection is set up again.
pub mod Backoff
pub mod Reconnect
