-- ===== src/Workers.antt =====
-- The worker agents.
pub mod Base
pub mod Terraform
pub mod Health
