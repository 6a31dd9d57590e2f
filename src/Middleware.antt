-- ===== src/Middleware.antt =====
-- crates/g2-middleware: the per-API layers that admit or reject a request.
pub mod Spike
pub mod Rules
pub mod RateLimit
pub mod PathPolicy
pub mod IpFilter
pub mod SizeLimit
pub mod Reads
pub mod Auth
pub mod Jwks
pub mod Cors
pub mod Transforms
pub mod Versions
