-- ===== src/Usecase/Proxy.antt =====
-- internal/usecase/proxy_upload_usecase.go and proxy_download_usecase.go.
pub mod Laws
use cargohold.Domain.Object.{LfsObject, mark_as_uploaded}
use cargohold.Domain.Oid.{Oid}
use cargohold.Domain.Operation.{Operation, operation_download, operation_upload}
use cargohold.Domain.Repository.{RepositoryIdentifier, new_repository_identifier}
use cargohold.Exec.{Exec, Result, gets, lift, map_err, on_error, pure, raise, ◌>>=◌, ◌>>◌}
use cargohold.Failure.{
  GoError, access_denied, is_error, not_found, not_uploaded, object_not_found, sentinel, storage,
}
use cargohold.Ports.{ObjectStorage, Services}
use cargohold.Prelude.{if◌then◌else◌, not, some, ◌++◌, ◌∷◌}
use cargohold.Prelude.Int.{ℤ}
use cargohold.Prelude.Text.{Text}
use cargohold.Usecase.Authorize.{check_authorization}

-- the error of a lookup: ErrNotFound becomes ErrObjectNotFound, others pass
pub proxy_lookup_error : GoError → GoError
proxy_lookup_error e = if is_error e not_found then sentinel object_not_found else e

-- domain.NewRepositoryIdentifier(owner + "/" + repo); a malformed name is ErrAccessDenied
pub proxy_repository : Text → Text → Result RepositoryIdentifier
proxy_repository owner repo =
    map_err (λ _. sentinel access_denied) (new_repository_identifier (owner ++ b'/' ∷ repo))

module _ {W Body : Type 0} (s : Services W) (storage : ObjectStorage W Body) where
  open s use {now, objects, policies}
  open storage use {put_object, get_object}

  -- what both do first: the caller's repository, and whether it may
  proxy_authorize : Operation → Text → Text → Oid → Exec W (Unit {0})
  proxy_authorize operation owner repo oid = do
    identifier ← lift (proxy_repository owner repo)
    auth ← check_authorization policies operation (some identifier) oid
    if not auth.allowed then raise (sentinel access_denied) else pure tt

  -- the content goes to the storage first, and the object is marked when that has worked
  store_content : Body → LfsObject → Exec W (Unit {0})
  store_content body obj = do
    put_object obj.storage_key.value body obj.size.value
    time ← gets now
    objects.update (mark_as_uploaded time obj)

  -- proxyUploadUseCaseImpl.Execute
  unfoldable pub proxy_upload : Text → Text → Oid → Body → Exec W (Unit {0})
  unfolding proxy_authorize proxy_repository store_content proxy_lookup_error
  proxy_upload owner repo oid body = do
    proxy_authorize operation_upload owner repo oid
    obj ← on_error proxy_lookup_error (objects.find_by_oid oid)
    store_content body obj

  fetch_content : LfsObject → Exec W (Body × ℤ)
  fetch_content obj =
      if not obj.uploaded
      then raise (sentinel not_uploaded)
      else do stream ← get_object obj.storage_key.value; pure (stream, obj.size.value)

  -- proxyDownloadUseCaseImpl.Execute
  unfoldable pub proxy_download : Text → Text → Oid → Exec W (Body × ℤ)
  unfolding proxy_authorize proxy_repository fetch_content proxy_lookup_error
  proxy_download owner repo oid = do
    proxy_authorize operation_download owner repo oid
    obj ← on_error proxy_lookup_error (objects.find_by_oid oid)
    fetch_content obj
