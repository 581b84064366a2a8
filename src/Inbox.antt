-- ===== src/Inbox.antt =====
-- The event gateway (services/event-gateway/src/changeops_event_gateway): the inbox of accepted
-- events, their publication, and the rate limit of each tenant.
pub mod Models
pub mod Repository
pub mod Accepted
pub mod Published
pub mod Exclusion
pub mod RateLimit
mod Examples
