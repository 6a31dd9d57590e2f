-- ===== src/Proxy.antt =====
-- crates/g2-proxy: circuit breaking, health checks, the target rotation, routing and rewriting.
pub mod Breaker
pub mod Router
pub mod Health
pub mod Rewrite
pub mod Rotation
pub mod Forward
