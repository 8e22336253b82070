-- ===== src/Infra/Oidc.antt =====
-- internal/infrastructure/oidc: the keys of the provider, the check of its tokens, and
-- what GitHub permits in a repository.
pub mod Jwks
pub mod Token
pub mod Checker
