-- ===== src/Usecase/Auth.antt =====
-- internal/usecase/auth_usecase.go, github_oidc_usecase.go and session_auth_usecase.go, over the
-- interfaces of internal/domain/repository_allowlist.go. A nil pointer is `none`.
pub mod Laws
use cargohold.Domain.Operation.{RepositoryPermissions}
use cargohold.Domain.Repository.{AllowedRepository, new_allowed_repository_from_string}
use cargohold.Domain.User.{GitHubUserInfo, UserInfo, set_permissions, to_user_info}
use cargohold.Exec.{Exec, Result, err, lift, map_err, ok, on_error, raise, then_ok, ◌>>=◌, ◌>>◌}
use cargohold.Failure.{
  github_oidc_not_configured, invalid_repository, plain, sentinel, session_not_found, wrapped,
}
use cargohold.Prelude.{Bool, List, Option, if◌then◌else◌, none, not, some, true}
use cargohold.Prelude.Text.{Text}

-- domain.RepositoryAllowlistRepository
pub record RepositoryAllowlist (W : Type 0) : Type 0 where
  pub is_allowed : AllowedRepository → Exec W Bool
  pub add : AllowedRepository → Exec W (Unit {0})
  pub remove : AllowedRepository → Exec W (Unit {0})
  pub list : Exec W (List AllowedRepository)

-- `verify_id_token` is the GitHubOIDCProvider, `get_session` the SessionClient.
pub record AuthServices (W : Type 0) : Type 0 where
  pub verify_id_token : Text → Exec W (Option GitHubUserInfo)
  pub get_session : Text → Exec W UserInfo

abbrev pub full_permissions : RepositoryPermissions
full_permissions = record { admin = true; push = true; pull = true; maintain = true; triage = true }

module _ {W : Type 0} (s : AuthServices W) (allowlist : RepositoryAllowlist W) where
  -- the user of a token whose repository is on the list
  pub admit : GitHubUserInfo → Bool → Result UserInfo
  unfolding to_user_info set_permissions
  admit info allowed =
      if not allowed
      then err (wrapped "%w: repository=" (sentinel invalid_repository))
      else then_ok (to_user_info info)
          λ user_info. ok (set_permissions (some full_permissions) user_info)

  pub authenticate_info : Option GitHubUserInfo → Exec W UserInfo
  unfolding new_allowed_repository_from_string
  authenticate_info none = raise (plain "github provider returned nil user info")
  authenticate_info (some info) = do
    allowed_repo ←
        lift (map_err (wrapped "リポジトリ形式が不正です") (new_allowed_repository_from_string info.repository))
    allowed ← on_error (wrapped "リポジトリ許可チェックに失敗しました") (allowlist.is_allowed allowed_repo)
    lift (admit info allowed)

  -- GitHubOIDCUseCase.Authenticate
  unfoldable pub authenticate : Text → Exec W UserInfo
  unfolding authenticate_info admit
  authenticate token = do info ← s.verify_id_token token; authenticate_info info

  -- SessionAuthUseCase.Authenticate
  unfoldable pub authenticate_session : Text → Exec W UserInfo
  authenticate_session session_id =
      on_error (λ _. wrapped "%w" (sentinel session_not_found)) (s.get_session session_id)

  -- AuthenticateGitHubOIDC; without a provider or a list there is no use case behind it.
  unfoldable pub authenticate_git_hub_oidc : Bool → Text → Exec W UserInfo
  unfolding authenticate
  authenticate_git_hub_oidc configured token =
      if not configured then raise (sentinel github_oidc_not_configured) else authenticate token
