-- ===== src/Infra/CacheKeys.antt =====
-- internal/infrastructure/redis/cache_keys.go and cache_key_generator.go. Durations are in
-- nanoseconds, as time.Duration counts.
pub mod Laws
use cargohold.Prelude.{ℕ, ◌*◌, ◌++◌}
use cargohold.Prelude.Text.{Text, codes}

abbrev metadata_key_prefix : Text
metadata_key_prefix = codes "lfs:meta:"

abbrev session_key_prefix : Text
session_key_prefix = codes "lfs:session:"

abbrev batch_upload_key_prefix : Text
batch_upload_key_prefix = codes "lfs:batch:upload:"

abbrev oidc_github_repo_key_prefix : Text
oidc_github_repo_key_prefix = codes "lfs:oidc:github:repo:"

abbrev oidc_state_key_prefix : Text
oidc_state_key_prefix = codes "lfs:oidc:state:"

abbrev oidc_jwks_key_prefix : Text
oidc_jwks_key_prefix = codes "lfs:oidc:jwks:"

abbrev minute : ℕ
minute = 60000000000

-- MetadataTTL, which CacheConfigImpl passes on
abbrev pub metadata_ttl : ℕ
metadata_ttl = 30 * minute

-- OIDCGitHubRepoTTL and repositoryCacheTTL have the same value.
abbrev pub repository_cache_ttl : ℕ
repository_cache_ttl = 5 * minute

abbrev pub metadata_key : Text → Text
metadata_key oid = metadata_key_prefix ++ oid

abbrev pub session_key : Text → Text
session_key session_id = session_key_prefix ++ session_id

abbrev pub batch_upload_key : Text → Text
batch_upload_key oid = batch_upload_key_prefix ++ oid

abbrev pub oidc_github_repo_key : Text → Text
oidc_github_repo_key repository = oidc_github_repo_key_prefix ++ repository

abbrev pub oidc_state_key : Text → Text
oidc_state_key state = oidc_state_key_prefix ++ state

abbrev pub oidc_jwks_key : Text → Text
oidc_jwks_key provider = oidc_jwks_key_prefix ++ provider
