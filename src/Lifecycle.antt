-- ===== src/Lifecycle.antt =====
-- Requests that are served at once (lib.rs): the handlers of one request in steps between which
-- other requests run.
pub mod Phases
pub mod Decision
pub mod Rest
pub mod Alone
pub mod Evidence
pub mod Shared
pub mod Frames
pub mod Asked
pub mod Steps
pub mod Refused
pub mod System
pub mod Invariant
pub mod Admitted
pub mod Alive
