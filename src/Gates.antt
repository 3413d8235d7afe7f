-- ===== src/Gates.antt =====
-- The gates that bound and wake concurrent work: requests, handlers of notifications, and waiters.
pub mod Request
pub mod Handlers
pub mod Wake
