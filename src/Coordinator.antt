-- ===== src/Coordinator.antt =====
-- The workflow coordinator (services/workflow-coordinator/src/changeops_workflow_coordinator): its
-- records, its repository and its retry policy.
pub mod Models
pub mod Repository
pub mod Versions
pub mod Retry
pub mod Engine
mod Examples
