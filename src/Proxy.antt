-- ===== src/Proxy.antt =====
-- The handlers of lib.rs.
pub mod Upstream
pub mod Target
pub mod Rewrite
pub mod Routing
pub mod Forwarded
pub mod Authenticated
