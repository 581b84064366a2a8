-- ===== src/Gateway.antt =====
-- The tool gateway (services/tool-gateway/src/changeops_tool_gateway): approvals, idempotent
-- executions and quotas.
pub mod Models
pub mod Errors
pub mod Repository
pub mod Approvals
pub mod Executions
pub mod Quota
mod Examples
mod QuotaExamples
