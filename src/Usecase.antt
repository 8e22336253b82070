-- ===== src/Usecase.antt =====
-- internal/usecase and the authorization service of internal/domain.
pub mod Authorize
pub mod Response
pub mod Request
pub mod Upload
pub mod Download
pub mod Batch
pub mod Marking
pub mod Verify
pub mod Proxy
pub mod Oauth
pub mod Auth
pub mod Readiness
