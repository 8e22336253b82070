-- ===== src/Usecase/Oauth.antt =====
-- internal/usecase/github_oauth_usecase.go: signing in through GitHub. `redirect` is the field that
-- SetRedirectURI sets, kept in the world. An error with `%v` keeps the sentinel of its `%w` alone.
pub mod Laws
use cargohold.Domain.Operation.{RepositoryPermissions, can_download}
use cargohold.Domain.Redirect.{AllowedRedirectUris, allows_redirect}
use cargohold.Domain.Repository.{RepositoryIdentifier, full_name, new_repository_identifier}
use cargohold.Domain.Shell.{OauthState, ShellType}
use cargohold.Domain.User.{UserInfo, new_user_info, provider_type_git_hub, set_permissions}
use cargohold.Exec.{Exec, always, gets, lift, map_err, on_error, pure, raise, ◌>>=◌, ◌>>◌}
use cargohold.Failure.{
  GoError, Sentinel, code_exchange_failed, invalid_code, invalid_redirect_uri, invalid_repository,
  invalid_state, repository_access_check_failed, repository_access_denied, sentinel,
  session_creation_failed, state_save_failed, user_info_creation_failed, user_info_failed, wrapped,
}
use cargohold.Prelude.{Option, [], if◌then◌else◌, none, not, some, ℕ}
use cargohold.Prelude.Int.{ℤ}
use cargohold.Prelude.Text.{Text, text_eq}

-- usecase.OAuthTokenResult
pub record OauthTokenResult : Type 0 where
  pub access_token : Text
  pub token_type : Text
  pub scope : Text

-- usecase.GitHubUserResult
pub record GitHubUserResult : Type 0 where
  pub id : ℤ
  pub login : Text
  pub name : Text

-- The three interfaces of github_oauth_interfaces.go, with what this use case calls of them, and
-- uuid.New and strconv.FormatInt.
pub record OauthServices (W : Type 0) : Type 0 where
  pub set_redirect_uri : Text → W → W
  pub get_authorization_url : Text → W → Text
  pub exchange_code : Text → Exec W OauthTokenResult
  pub get_user_info : OauthTokenResult → Exec W GitHubUserResult
  pub get_repository_permissions :
      OauthTokenResult → RepositoryIdentifier → Exec W RepositoryPermissions
  pub save_state : Text → OauthState → ℕ → Exec W (Unit {0})
  pub get_and_delete_state : Text → Exec W OauthState
  pub create_session : UserInfo → ℕ → Exec W Text
  pub new_uuid : W → Text × W
  pub format_int : ℤ → Text

abbrev oidc_state_ttl : ℕ
oidc_state_ttl = 600000000000

abbrev session_ttl : ℕ
session_ttl = 86400000000000

-- fmt.Errorf("%w: …", sentinel)
abbrev pub because : Sentinel → GoError
because s = wrapped "%w" (sentinel s)

module _ {W : Type 0} (s : OauthServices W) where
  open s use {
    set_redirect_uri, get_authorization_url, exchange_code, get_user_info,
    get_repository_permissions, save_state, get_and_delete_state, create_session, new_uuid,
    format_int,
  }

  -- StartAuthentication after its checks
  begin : RepositoryIdentifier → Text → ShellType → Exec W Text
  unfolding full_name
  begin repository redirect_uri shell = do
    state ← always new_uuid
    on_error (λ _. because state_save_failed)
        (save_state state
          (record { repository = full_name repository; redirect_uri = redirect_uri; shell = shell })
          oidc_state_ttl)
    always (λ w. (tt, set_redirect_uri redirect_uri w))
    gets (get_authorization_url state)

  unfoldable pub start_authentication :
      AllowedRedirectUris → Option RepositoryIdentifier → Text → ShellType → Exec W Text
  unfolding begin text_eq allows_redirect
  start_authentication allowed none redirect_uri shell = raise (because invalid_repository)
  start_authentication allowed (some repository) redirect_uri shell =
      if text_eq redirect_uri []
      then raise (because invalid_redirect_uri)
      else if not (allows_redirect allowed redirect_uri)
      then raise (because invalid_redirect_uri)
      else begin repository redirect_uri shell

  -- the account and its rights become a session
  pub open_session : RepositoryIdentifier → GitHubUserResult → RepositoryPermissions → Exec W Text
  unfolding new_user_info set_permissions can_download
  open_session repository github_user permissions =
      if not (can_download permissions) then raise (because repository_access_denied) else do
        user_info ← lift (
            map_err (λ _. because user_info_creation_failed)
              (new_user_info (format_int github_user.id) [] github_user.name provider_type_git_hub
                (some repository) []))
        on_error (λ _. because session_creation_failed)
            (create_session (set_permissions (some permissions) user_info) session_ttl)

  -- what HandleCallback asks of GitHub
  pub sign_in : RepositoryIdentifier → Text → Text → Exec W Text
  unfolding open_session
  sign_in repository redirect_uri code = do
    always (λ w. (tt, set_redirect_uri redirect_uri w))
    token ← on_error (λ _. because code_exchange_failed) (exchange_code code)
    github_user ← on_error (λ _. because user_info_failed) (get_user_info token)
    permissions ←
        on_error (λ _. because repository_access_check_failed)
          (get_repository_permissions token repository)
    open_session repository github_user permissions

  pub redeem : Text → OauthState → Exec W (Text × ShellType)
  unfolding new_repository_identifier sign_in
  redeem code state_data = do
    repository ← lift (
        map_err (λ _. because invalid_repository) (new_repository_identifier state_data.repository))
    session_id ← sign_in repository state_data.redirect_uri code
    pure (session_id, state_data.shell)

  unfoldable pub handle_callback : Text → Text → Exec W (Text × ShellType)
  unfolding redeem text_eq
  handle_callback code state =
      if text_eq code []
      then raise (because invalid_code)
      else if text_eq state []
      then raise (because invalid_state)
      else do
        state_data ← on_error (λ _. because invalid_state) (get_and_delete_state state)
        redeem code state_data
