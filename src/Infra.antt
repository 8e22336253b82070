-- ===== src/Infra.antt =====
-- internal/infrastructure: what stands behind the interfaces of the use cases.
pub mod StorageKey
pub mod CacheKeys
pub mod Urls
pub mod Caching
pub mod Allowlist
pub mod Postgres
pub mod Redis
pub mod Health
pub mod Oidc
pub mod Masking
pub mod S3
