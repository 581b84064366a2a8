-- ===== src/Admission.antt =====
-- Admission to the control API (services/control-api/src/control_api/admission): who may sign in to
-- which organisation, and who may decide that.
pub mod Models
pub mod Documents
pub mod Service
pub mod Administration
pub mod Access
pub mod Actions
pub mod Governance
pub mod Redemption
pub mod Membership
mod Examples
