-- ===== src/Coordinator/Engine.antt =====
-- `WorkflowEngine` of services/workflow-coordinator/src/changeops_workflow_coordinator/engine.py.
pub mod World
pub mod Records
pub mod Tasks
pub mod Dag
pub mod Verification
pub mod Rollback
pub mod Events
pub mod Approvals
pub mod Outcomes
pub mod Attempts
pub mod Updates
pub mod Board
pub mod Readiness
pub mod Rounds
pub mod Failures
pub mod Progress
pub mod Capture
pub mod Restoration
pub mod Settlement
pub mod Verified
pub mod Completion
pub mod Resumption
mod Examples
