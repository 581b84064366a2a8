-- ===== src/StateMachine.antt =====
-- The workflow state machine (packages/changeops-core/src/changeops_core/state_machine.py): the
-- static transition table, what paths through it must visit, and the audited service on top.
pub mod Table
pub mod Paths
pub mod Service
pub mod Outcomes
pub mod Guarantees
mod Examples
pub use Table.{allowed_targets, can_transition}
