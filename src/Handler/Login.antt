-- ===== src/Handler/Login.antt =====
-- internal/handler/auth: github_login.go, github_callback.go and session_display.go over the sign-in.
-- strings.ToLower, url.QueryEscape and html.EscapeString are parameters.
pub mod Laws
use cargohold.Domain.Redirect.{AllowedRedirectUris}
use cargohold.Domain.Repository.{RepositoryIdentifier, new_repository_identifier}
use cargohold.Domain.Shell.{ShellType, is_zero, new_credential_command, parse_shell_type}
use cargohold.Exec.{Result, err, ok}
use cargohold.Failure.{
  GoError, code_exchange_failed, invalid_state, is_error, plain, repository_access_denied,
  user_info_failed, wrapped,
}
use cargohold.Handler.Http.{Reply, answered, app_error}
use cargohold.Prelude.{
  Bool, List, Option, [], false, if◌then◌else◌, is_empty, none, not, some, true, ◌++◌, ◌||◌, ◌∷◌,
}
use cargohold.Prelude.Text.{Text, codes, text_eq}
use cargohold.Usecase.Oauth.{OauthServices, handle_callback, start_authentication}

-- A redirection, with the session of the cookie where one is set.
pub record Redirection : Type 0 where
  pub location : Text
  pub cookie : Option Text

pub record LoginRequest : Type 0 where
  pub host : Text
  pub repository : Text
  pub shell : Text
  pub forwarded_proto : Text
  pub tls : Bool

-- GitHubLoginHandlerConfig
pub record LoginConfig : Type 0 where
  pub trust_proxy : Bool
  pub allowed_hosts : List Text

-- host == allowed, for some entry
unfoldable pub has_host : Text → List Text → Bool
unfolding text_eq
has_host host [] = false
has_host host (allowed ∷ hosts) = if text_eq host allowed then true else has_host host hosts

unfoldable pub is_host_allowed : Text → List Text → Bool
unfolding has_host text_eq
is_host_allowed host allowed_hosts =
    if is_empty allowed_hosts
    then true
    else if text_eq host []
    then false
    else has_host host allowed_hosts

module _ (to_lower : Text → Text) where
  forwarded_scheme : Text → Option Text
  unfolding text_eq
  forwarded_scheme forwarded =
      if text_eq forwarded (codes "http") || text_eq forwarded (codes "https")
      then some forwarded
      else none

  scheme_or : Bool → Option Text → Text
  scheme_or tls (some scheme) = scheme
  scheme_or tls none = if tls then codes "https" else codes "http"

  unfoldable pub resolve_scheme : LoginRequest → Bool → Text
  unfolding forwarded_scheme scheme_or
  resolve_scheme c trust_proxy =
      scheme_or c.tls (if trust_proxy then forwarded_scheme (to_lower c.forwarded_proto) else none)

  unfoldable pub redirect_uri_of : LoginRequest → Bool → Text
  unfolding resolve_scheme
  redirect_uri_of c trust_proxy =
      resolve_scheme c trust_proxy ++ (codes "://" ++ (c.host ++ codes "/auth/github/callback"))

  module _ {W : Type 0} (s : OauthServices W) (allowed : AllowedRedirectUris)
      (cfg : LoginConfig) where
    login_reply : Result Text × W → Reply Redirection × W
    login_reply (ok auth_url, w) = (answered 302 (record { location = auth_url; cookie = none }), w)
    login_reply (err e, w) = (app_error 500 "認証URLの生成に失敗しました" (some e), w)

    login_shell : LoginRequest → RepositoryIdentifier → Result ShellType → W → Reply Redirection × W
    unfolding login_reply start_authentication redirect_uri_of
    login_shell c repository (err e) w =
        (app_error 400 "shellパラメータの値が不正です" (some (wrapped "invalid shell" e)), w)
    login_shell c repository (ok shell_type) w = login_reply (
        start_authentication s allowed (some repository) (redirect_uri_of c cfg.trust_proxy)
          shell_type w)

    login_repository : LoginRequest → Result RepositoryIdentifier → W → Reply Redirection × W
    unfolding login_shell parse_shell_type
    login_repository c (err e) w =
        (app_error 400 "repositoryパラメータの形式が不正です" (some (wrapped "invalid repository" e)), w)
    login_repository c (ok repository) w = login_shell c repository (parse_shell_type c.shell) w

    -- GitHubLoginHandler
    unfoldable pub handle_login : LoginRequest → W → Reply Redirection × W
    unfolding login_repository is_host_allowed new_repository_identifier text_eq
    handle_login c w =
        if not (is_host_allowed c.host cfg.allowed_hosts)
        then (app_error 400 "許可されていないホストからのリクエストです" (some (plain "host is not in allowed list")), w)
        else if text_eq c.repository []
        then (
          app_error 400 "repositoryパラメータが指定されていません" (some (plain "repository parameter is empty")),
          w,
        )
        else login_repository c (new_repository_identifier c.repository) w

unfoldable pub handle_callback_error : {B : Type 0} → GoError → Reply B
unfolding is_error
handle_callback_error e =
    if is_error e invalid_state
    then app_error 401 "認証セッションが無効または期限切れです" (some e)
    else if is_error e repository_access_denied
    then app_error 403 "リポジトリへのアクセス権がありません" (some e)
    else if is_error e code_exchange_failed
    then app_error 401 "認証に失敗しました" (some e)
    else if is_error e user_info_failed
    then app_error 401 "ユーザー情報の取得に失敗しました" (some e)
    else app_error 500 "認証処理に失敗しました" (some e)

module _ (query_escape : Text → Text) where
  unfoldable pub session_url : Text → Text → ShellType → Text
  unfolding is_zero
  session_url session_id host shell_type =
      codes "/auth/session?session_id="
      ++ (session_id
          ++ (codes "&host="
              ++ (query_escape host
                  ++ (if is_zero shell_type
                      then []
                      else codes "&shell=" ++ query_escape shell_type.value))))

  module _ {W : Type 0} (s : OauthServices W) where
    callback_reply : Text → Result (Text × ShellType) × W → Reply Redirection × W
    unfolding handle_callback_error session_url
    callback_reply host (err e, w) = (handle_callback_error e, w)
    callback_reply host (ok (session_id, shell_type), w) = (
      answered 302
          (record { location = session_url session_id host shell_type; cookie = some session_id }),
      w,
    )

    -- GitHubCallbackHandler, on the parameters `code` and `state` and the host
    unfoldable pub callback_handler : Text → Text → Text → W → Reply Redirection × W
    unfolding callback_reply handle_callback text_eq
    callback_handler code state host w =
        if text_eq code []
        then (app_error 400 "codeパラメータが指定されていません" (some (plain "code parameter is empty")), w)
        else if text_eq state []
        then (app_error 400 "stateパラメータが指定されていません" (some (plain "state parameter is empty")), w)
        else callback_reply host (handle_callback s code state w)

-- shellType, _ = domain.ParseShellType(…)
unfoldable pub shell_or_none : Result ShellType → ShellType
shell_or_none (ok shell) = shell
shell_or_none (err e) = record { value = [] }

-- SessionDisplayHandler, on the parameters `session_id`, `host` and `shell`: the body is what stands
-- between <pre> and </pre> of the page, whose rest is constant.
unfoldable pub display_session : (Text → Text) → Text → Text → Text → Reply Text
unfolding shell_or_none parse_shell_type new_credential_command text_eq
display_session escape_string session_id host shell =
    if text_eq session_id []
    then app_error 400 "session_idパラメータが指定されていません" (some (plain "session_id parameter is empty"))
    else if text_eq host []
    then app_error 400 "hostパラメータが指定されていません" (some (plain "host parameter is empty"))
    else answered 200 (
        escape_string
          (new_credential_command (shell_or_none (parse_shell_type shell)) host session_id))
