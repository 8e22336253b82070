-- ===== src/Domain/Operation/Laws.antt =====
-- Operations are two, and permission to upload includes permission to download.
use cargohold.Domain.Operation.{
  Operation, RepositoryPermissions, can_download, can_upload, operation_download, operation_eq,
  operation_upload, parse_operation,
}
use cargohold.Exec.{ok}
use cargohold.Prelude.{arith, false, refl, true, ◌↔◌, ◌≡◌, ◌⊎◌}
use cargohold.Prelude.Text.{Text, codes, text_eq_iff}

pub operation_eq_iff : (o p : Operation) → (operation_eq o p ≡ true) ↔ (o ≡ p)
unfolding operation_eq
operation_eq_iff o p = ground (arith, text_eq_iff o.value p.value)

pub download-ne-upload : operation_eq operation_download operation_upload ≡ false
unfolding operation_eq
download-ne-upload = refl

-- A text is an operation exactly when it is "upload" or "download", and it is kept as it stands.
parse_operation-eq-ok_iff :
    (s : Text) (o : Operation)
    → (parse_operation s ≡ ok o) ↔ ((o.value ≡ s) × ((s ≡ codes "download") ⊎ (s ≡ codes "upload")))
unfolding parse_operation
parse_operation-eq-ok_iff s o = (
  (λ h. ground (arith, text_eq_iff s (codes "download"), text_eq_iff s (codes "upload"))),
  λ h. ground (arith, text_eq_iff s (codes "download"), text_eq_iff s (codes "upload")),
)

pub can_download_of_can_upload :
    (p : RepositoryPermissions) → can_upload p ≡ true → can_download p ≡ true
unfolding can_upload can_download
can_download_of_can_upload p h = ground arith
