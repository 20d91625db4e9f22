-- ===== src/Api.antt =====
-- The HTTP interface.
pub mod Http
pub mod Container
pub mod Schemas
pub mod Deployments
pub mod Drift
pub mod Auth
pub mod RateLimiter
pub mod Health
pub mod Correlation
