-- ===== src/Core.antt =====
-- crates/g2-core: the state of API keys and the policies they may carry.
pub mod Session
pub mod Policy
pub mod Tests
