-- ===== src/Examples.antt =====
-- The theorems at concrete inputs, and tests of the definitions.
mod Sample
mod Uploads
mod Requests
mod Caches
mod Decided
mod Checks
mod Forwarding
mod Links
mod Gated
mod Concurrent
mod Metered
mod Interleaved
mod Started
