-- ===== src/Http.antt =====
-- What stands around the handlers: the exception filter, the guards and the tenant of a request
-- (common).
pub mod Filter
pub mod Envelopes
pub mod Guards
pub mod Redirects
pub mod Requests
pub mod Admission
pub mod OauthState
