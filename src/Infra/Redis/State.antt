-- ===== src/Infra/Redis/State.antt =====
-- internal/infrastructure/redis/oauth_state_store.go.
pub mod Laws
use cargohold.Domain.Shell.{OauthState, ShellType, parse_shell_type}
use cargohold.Exec.{Exec, Result, err, ok, on_error, pure, ◌>>=◌}
use cargohold.Failure.{wrapped}
use cargohold.Infra.CacheKeys.{oidc_state_key}
use cargohold.Infra.Redis.{Codec, Driver, get_del_json, set_json_key}
use cargohold.Prelude.{[], if◌then◌else◌, ℕ}
use cargohold.Prelude.Text.{Text, text_eq}

-- oauthStateDTO
pub record OauthStateDto : Type 0 where
  pub repository : Text
  pub redirect_uri : Text
  pub shell : Text

unfoldable pub oauth_state_dto : OauthState → OauthStateDto
oauth_state_dto s = record {
  repository = s.repository;
  redirect_uri = s.redirect_uri;
  shell = s.shell.value;
}

-- shellType, _ = domain.ParseShellType(…), which answers the zero value beside an error
unfoldable pub shell_or_zero : Result ShellType → ShellType
shell_or_zero (ok shell) = shell
shell_or_zero (err e) = record { value = [] }

unfoldable pub restore_shell : Text → ShellType
unfolding shell_or_zero parse_shell_type text_eq
restore_shell s = if text_eq s [] then record { value = [] } else shell_or_zero (parse_shell_type s)

unfoldable pub restore_state : OauthStateDto → OauthState
unfolding restore_shell
restore_state dto = record {
  repository = dto.repository;
  redirect_uri = dto.redirect_uri;
  shell = restore_shell dto.shell;
}

module _ {W : Type 0} (driver : Driver W) (codec : Codec OauthStateDto) where
  unfoldable pub save_oauth_state : Text → OauthState → ℕ → Exec W (Unit {0})
  unfolding oauth_state_dto set_json_key
  save_oauth_state state s ttl =
      on_error (wrapped "OAuth state の保存に失敗しました")
        (set_json_key driver codec (oidc_state_key state) (oauth_state_dto s) ttl)

  unfoldable pub take_oauth_state : Text → Exec W OauthState
  unfolding restore_state get_del_json
  take_oauth_state state = do
    dto ←
        on_error (wrapped "OAuth state の取得と削除に失敗しました")
          (get_del_json driver codec (oidc_state_key state))
    pure (restore_state dto)
