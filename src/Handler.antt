-- ===== src/Handler.antt =====
-- internal/handler: what stands before the use cases.
pub mod Dispatcher
pub mod Readyz
pub mod Http
pub mod BatchApi
pub mod ProxyApi
pub mod VerifyApi
pub mod Errors
pub mod Login
pub mod LogMasking
