-- ===== src/Api.antt =====
-- The HTTP service of services/api/src/api: its answers, the check of the access to a dataset, and the
-- endpoints that read the cache or receive events.
pub mod Responses
pub mod Authentication
pub mod JwtToken
pub mod Endpoint
pub mod Webhook
pub mod Valid
mod Samples
