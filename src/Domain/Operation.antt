-- ===== src/Domain/Operation.antt =====
-- internal/domain/operation.go and repository_permissions.go.
pub mod Laws
use cargohold.Exec.{Result, err, ok}
use cargohold.Failure.{domain_invalid_operation, sentinel}
use cargohold.Prelude.{Bool, if◌then◌else◌, ◌||◌}
use cargohold.Prelude.Text.{Text, codes, text_eq}

pub record Operation : Type 0 where
  pub value : Text

abbrev pub operation_download : Operation
operation_download = record { value = codes "download" }

abbrev pub operation_upload : Operation
operation_upload = record { value = codes "upload" }

-- o == p
unfoldable pub operation_eq : Operation → Operation → Bool
unfolding text_eq
operation_eq o p = text_eq o.value p.value

unfoldable pub parse_operation : Text → Result Operation
unfolding text_eq
parse_operation s =
    if text_eq s (codes "download")
    then ok operation_download
    else if text_eq s (codes "upload")
    then ok operation_upload
    else err (sentinel domain_invalid_operation)

pub record RepositoryPermissions : Type 0 where
  pub admin : Bool
  pub push : Bool
  pub pull : Bool
  pub maintain : Bool
  pub triage : Bool

unfoldable pub can_upload : RepositoryPermissions → Bool
can_upload p = p.push || p.admin || p.maintain

unfoldable pub can_download : RepositoryPermissions → Bool
can_download p = p.pull || p.push || p.admin || p.maintain || p.triage
