-- ===== src/Persistence.antt =====
-- Tenant-scoped storage of changes and of their audit stream
-- (packages/persistence/src/changeops_persistence).
pub mod Errors
pub mod Protocol
pub mod Memory
pub mod Atomic
pub mod Refinement
pub mod Consistency
pub mod Runs
pub mod Isolation
mod Examples
