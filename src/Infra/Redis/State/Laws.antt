-- ===== src/Infra/Redis/State/Laws.antt =====
-- The state of a sign-in is read back once.
use cargohold.Domain.Shell.{ShellType}
use cargohold.Infra.Redis.{Codec, Driver}
use cargohold.Infra.Redis.Laws.{IsCodec, IsDriver}
use cargohold.Infra.Redis.State.{OauthStateDto, restore_shell}
use cargohold.Prelude.{Option, ◌≡◌}
use cargohold.Prelude.Text.{Text}

module _ {W : Type 0} (driver : Driver W) (entry : W → Text → Option Text)
    (redis : IsDriver driver entry) (codec : Codec OauthStateDto) (Good : OauthStateDto → Type 0)
    (json : IsCodec codec Good) where
  -- A shell as it is parsed, or none.
  abbrev pub IsShell : ShellType → Type 0
  IsShell shell = restore_shell shell.value ≡ shell
