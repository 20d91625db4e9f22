-- ===== src/Tests.antt =====
-- Concrete inputs, and the theorems applied to them.
mod Samples
mod Domain
mod Plans
pub mod Database
mod Stores
mod Tables
mod Terraform
mod Middleware
mod Loops
mod Interleavings
mod Services
mod Routes
