-- ===== src/Domain/Shell/Laws.antt =====
-- Shell names.
-- Whatever shell is chosen, its name is not empty and parses to itself.
use cargohold.Domain.Shell.{ShellType, is_zero, parse_shell_type}
use cargohold.Exec.{ok}
use cargohold.Prelude.{arith, false, ◌≡◌}
use cargohold.Prelude.Text.{Text}

pub parse_shell_type-value :
    (s : Text) (t : ShellType)
    → parse_shell_type s ≡ ok t
    → (is_zero t ≡ false) × (parse_shell_type t.value ≡ ok t)
unfolding parse_shell_type is_zero
parse_shell_type-value s t h = ground arith
