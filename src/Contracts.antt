-- ===== src/Contracts.antt =====
-- The wire contracts that every service shares
-- (packages/contracts-python/src/changeops_contracts): enumerations, JSON values, records, the
-- validators of the records, and the canonical digests.
pub mod Json
pub mod Enums
pub mod Texts
pub mod Models
pub mod Canonical
pub mod ChangeRecords
pub mod Approvals
pub mod Plans
pub mod Equality
pub mod Samples
mod Examples
