-- ===== src/Domain.antt =====
-- The domain layer: aggregates, value objects, events, exceptions.
pub mod Status
pub mod Cloud
pub mod Entity
pub mod Events
pub mod Errors
pub mod Plan
pub mod Deployment
pub mod Task
pub mod Drift
pub mod User
pub mod Ports
pub mod Enums
