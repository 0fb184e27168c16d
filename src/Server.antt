-- ===== src/Server.antt =====
-- The start of the server: the Python configuration, and what `run_server` of lib.rs makes of it.
pub mod Objects
pub mod Items
pub mod Keystore
pub mod Start
pub mod Counter
pub mod Laws
