-- ===== src/Lifecycle.antt =====
-- src/core: groups of workers, and scopes of resources.
pub mod TaskGroup
pub mod Scope
pub mod Group
