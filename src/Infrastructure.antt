-- ===== src/Infrastructure.antt =====
-- The infrastructure layer: the adapters behind the ports of the domain.
pub mod Planning
pub mod InMemory
pub mod Database
pub mod Postgres
pub mod Queues
pub mod Adapters
pub mod TerraformExecutor
pub mod EventPublisher
pub mod DriftDetector
pub mod RedisLock
pub mod RedisCache
