-- ===== src/Domains.antt =====
-- src/domains: the payloads of the domains.
pub mod Kv
pub mod Queue
pub mod Pending
pub mod Notice
pub mod Rpc
pub mod Stream
pub mod Subscription
