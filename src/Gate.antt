-- ===== src/Gate.antt =====
-- `request_filter` of lib.rs: who may pass.
pub mod World
pub mod Stages
pub mod Replies
pub mod Usage
pub mod Keys
pub mod Validate
pub mod Filter
pub mod Steps
pub mod Passed
pub mod Admission
pub mod Through
pub mod Uses
pub mod Races
pub mod DecisionKeys
