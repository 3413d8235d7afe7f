-- ===== src/Routes.antt =====
-- src/domains/_routes.ts: shapes of routes, and patterns that routes match. A loop over the indices
-- of a string is a recursion on the code units from the index on.
pub mod Selectors
pub mod Registration
pub mod Segments
pub mod Matcher
pub mod Glob
pub mod Size
pub mod Shape
