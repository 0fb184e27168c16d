-- ===== src/Streaming.antt =====
-- Streaming uploads.
pub mod Hex
pub mod Frame
pub mod State
pub mod Filter
pub mod Chain
pub mod RoundTrip
pub mod Drain
pub mod Fragments
pub mod Upload
pub mod Total
