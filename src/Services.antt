-- ===== src/Services.antt =====
-- The domain services, over the in-memory repositories.
pub mod World
pub mod Deployments
pub mod Drift
