-- ===== src/Usecase/Verify.antt =====
-- internal/usecase/verify_usecase.go. A failure to delete the batch upload key is only logged.
pub mod Laws
use cargohold.Domain.Object.{LfsObject, mark_as_uploaded}
use cargohold.Domain.Oid.{Size, new_oid, new_size}
use cargohold.Exec.{Exec, attempt, gets, lift, map_err, on_error, pure, raise, ◌>>=◌, ◌>>◌}
use cargohold.Failure.{
  GoError, domain_invalid_size, invalid_oid, invalid_oid_format, invalid_size, is_error, not_found,
  object_not_found, sentinel, size_mismatch, wrapped,
}
use cargohold.Ports.{Services}
use cargohold.Prelude.{if◌then◌else◌, not}
use cargohold.Prelude.Int.{int_eq, ℤ}
use cargohold.Prelude.Text.{Text}

-- the error of a lookup: ErrNotFound becomes ErrObjectNotFound
pub lookup_error : GoError → GoError
lookup_error e =
    if is_error e not_found then sentinel object_not_found else wrapped "メタデータの取得に失敗しました" e

module _ {W : Type 0} (s : Services W) (delete_batch_upload_key : Text → Exec W (Unit {0})) where
  open s use {now, objects}

  -- `MarkAsUploaded`, `Update` and the deletion of the key
  mark_verified : Text → LfsObject → Exec W (Unit {0})
  mark_verified oid obj = do
    time ← gets now
    on_error (wrapped "メタデータの更新に失敗しました") (objects.update (mark_as_uploaded time obj))
    attempt (delete_batch_upload_key oid)
    pure tt

  verify_found : Text → Size → LfsObject → Exec W (Unit {0})
  verify_found oid size obj =
      if not (int_eq obj.size.value size.value)
      then raise (sentinel size_mismatch)
      else mark_verified oid obj

  -- NewOID and NewSize have one error each, so that the branches for others are never taken.
  unfoldable pub verify_upload : Text → ℤ → Exec W (Unit {0})
  unfolding verify_found mark_verified lookup_error
  verify_upload oid size = do
    domain_oid ← lift (
        map_err
          (λ e.
            if is_error e invalid_oid_format
            then sentinel invalid_oid
            else wrapped "OIDの検証に失敗しました" e)
          (new_oid oid))
    domain_size ← lift (
        map_err
          (λ e.
            if is_error e domain_invalid_size
            then sentinel invalid_size
            else wrapped "サイズの検証に失敗しました" e)
          (new_size size))
    obj ← on_error lookup_error (objects.find_by_oid domain_oid)
    verify_found oid domain_size obj
