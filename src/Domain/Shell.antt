-- ===== src/Domain/Shell.antt =====
-- internal/domain/shell_type.go, oauth_state.go and credential_command.go.
pub mod Laws
use cargohold.Exec.{Result, err, ok}
use cargohold.Failure.{invalid_shell_type, sentinel, wrapped}
use cargohold.Prelude.{Bool, [], if◌then◌else◌, ◌++◌, ◌||◌, ◌∷◌}
use cargohold.Prelude.Text.{Text, codes, text_eq}

pub record ShellType : Type 0 where
  pub value : Text

abbrev pub shell_type_bash : ShellType
shell_type_bash = record { value = codes "bash" }

abbrev pub shell_type_zsh : ShellType
shell_type_zsh = record { value = codes "zsh" }

abbrev pub shell_type_power_shell : ShellType
shell_type_power_shell = record { value = codes "powershell" }

unfoldable pub parse_shell_type : Text → Result ShellType
unfolding text_eq
parse_shell_type s =
    if text_eq s [] || text_eq s (codes "bash")
    then ok shell_type_bash
    else if text_eq s (codes "zsh")
    then ok shell_type_zsh
    else if text_eq s (codes "powershell")
    then ok shell_type_power_shell
    else err (wrapped "shell" (sentinel invalid_shell_type))

unfoldable pub is_zero : ShellType → Bool
unfolding text_eq
is_zero s = text_eq s.value []

pub record OauthState : Type 0 where
  pub repository : Text
  pub redirect_uri : Text
  pub shell : ShellType

abbrev newline : Text
newline = 10 ∷ []

credential_fields : Text → Text → Text
credential_fields host session_id =
    codes "protocol=https"
    ++ newline
    ++ codes "host="
    ++ host
    ++ newline
    ++ codes "username=x-session"
    ++ newline
    ++ codes "password="
    ++ session_id
    ++ newline

-- The command that stores the session for git, by the shell that will read it.
unfoldable pub new_credential_command : ShellType → Text → Text → Text
unfolding text_eq credential_fields
new_credential_command shell_type host session_id =
    if text_eq shell_type.value (codes "powershell")
    then codes "@"
      ++ 34 ∷ newline
      ++ credential_fields host session_id
      ++ 34 ∷ codes "@ | git credential approve"
    else codes "git credential approve <<EOF"
      ++ newline
      ++ credential_fields host session_id
      ++ codes "EOF"
