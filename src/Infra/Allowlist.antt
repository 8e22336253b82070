-- ===== src/Infra/Allowlist.antt =====
-- internal/infrastructure/caching_repository_allowlist.go over
-- internal/usecase/repository_allowlist_cache_client.go.
pub mod Laws
use cargohold.Domain.Repository.{AllowedRepository, full_name}
use cargohold.Exec.{Exec, Result, attempt, err, ok, on_error, pure, ◌>>=◌, ◌>>◌}
use cargohold.Failure.{wrapped}
use cargohold.Infra.CacheKeys.{oidc_github_repo_key, repository_cache_ttl}
use cargohold.Prelude.{Bool, List, if◌then◌else◌, true, ℕ}
use cargohold.Prelude.Text.{Text, codes, text_eq}
use cargohold.Usecase.Auth.{RepositoryAllowlist}

-- usecase.RepositoryAllowlistCacheClient
pub record AllowlistCacheClient (W : Type 0) : Type 0 where
  pub get : Text → Exec W Text
  pub set : Text → Text → ℕ → Exec W (Unit {0})
  pub delete : Text → Exec W (Unit {0})

-- the value that stands for an answer
pub cache_value : Bool → Text
cache_value allowed = if allowed then codes "true" else codes "false"

module _ {W : Type 0} (pg_repo : RepositoryAllowlist W)
    (cache_client : AllowlistCacheClient W) where
  open cache_client use {get, set, delete}

  pub get_cache_key : AllowedRepository → Text
  unfolding full_name
  get_cache_key repository = oidc_github_repo_key (full_name repository.identifier)

  check_cache : Text → Exec W Bool
  unfolding text_eq
  check_cache cache_key = do val ← get cache_key; pure (text_eq val (codes "true"))

  -- A failure to write the cache is dropped.
  set_cache : Text → Bool → Exec W (Unit {0})
  unfolding cache_value
  set_cache cache_key allowed = do
    attempt (set cache_key (cache_value allowed) repository_cache_ttl)
    pure tt

  allowed_or_stored : AllowedRepository → Result Bool → Exec W Bool
  allowed_or_stored repository (ok allowed) = pure allowed
  allowed_or_stored repository (err e) = do
    allowed ← on_error (wrapped "リポジトリ許可チェックに失敗しました") (pg_repo.is_allowed repository)
    set_cache (get_cache_key repository) allowed
    pure allowed

  unfoldable pub is_allowed : AllowedRepository → Exec W Bool
  unfolding allowed_or_stored check_cache set_cache get_cache_key
  is_allowed repository = do
    cached ← attempt (check_cache (get_cache_key repository))
    allowed_or_stored repository cached

  unfoldable pub add : AllowedRepository → Exec W (Unit {0})
  unfolding set_cache get_cache_key
  add repository = do
    on_error (wrapped "リポジトリの追加に失敗しました") (pg_repo.add repository)
    set_cache (get_cache_key repository) true

  unfoldable pub remove : AllowedRepository → Exec W (Unit {0})
  unfolding get_cache_key
  remove repository = do
    on_error (wrapped "リポジトリの削除に失敗しました") (pg_repo.remove repository)
    attempt (delete (get_cache_key repository))
    pure tt

  unfoldable pub list : Exec W (List AllowedRepository)
  list = on_error (wrapped "リポジトリ一覧の取得に失敗しました") pg_repo.list

  -- CachingRepositoryAllowlist as a domain.RepositoryAllowlistRepository
  unfoldable pub caching_allowlist : RepositoryAllowlist W
  unfolding is_allowed add remove list
  caching_allowlist = record { is_allowed = is_allowed; add = add; remove = remove; list = list }
