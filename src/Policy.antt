-- ===== src/Policy.antt =====
-- The policy engine (packages/policy-engine/src/changeops_policy_engine).
pub mod Models
pub mod Registry
pub mod Engine
pub mod Conditions
pub mod Authorized
pub mod Effects
mod Examples
