-- ===== src/Tests.antt =====
-- Concrete runs: each theorem about the code at an input that meets its hypotheses.
mod Ascii
mod Buffers
mod Calling
mod Frames
mod Matching
mod Requests
mod Wakes
mod Handlers
mod Domains
mod Multiplexing
mod Reconnecting
mod Grouping
mod Extending
mod Disposing
mod Reserving
mod Streaming
mod Subscribing
mod Expiring
mod Noticing
