-- ===== src/Infrastructure/Planning.antt =====
-- RuleBasedPlanningEngine of infrastructure/ai/planning_engine.py.
pub mod Tables
pub mod Steps
pub mod Dependencies
pub mod Generate
pub mod Checks
pub mod Sorted
pub mod Valid
