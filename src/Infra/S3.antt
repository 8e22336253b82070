-- ===== src/Infra/S3.antt =====
-- internal/infrastructure/s3/client.go and presign.go over the AWS library, which is a parameter.
pub mod Laws
use cargohold.Exec.{Exec, Result, err, ok, on_error}
use cargohold.Failure.{GoError, StorageOperation, storage, wrapped}
use cargohold.Ports.{ObjectStorage}
use cargohold.Prelude.{Bool, false, if◌then◌else◌, true, ℕ, ◌==◌}
use cargohold.Prelude.Int.{ℤ}
use cargohold.Prelude.Text.{Text}

-- The calls of the library with the fields of their inputs that are set. `is_not_found` is errors.As
-- for *types.NotFound, or for an API error with the code "NotFound".
pub record S3Api (W Body : Type 0) : Type 0 where
  pub put : Text → Text → Body → ℤ → Exec W (Unit {0})
  pub get : Text → Text → Exec W Body
  pub head : Text → Text → Exec W (Unit {0})
  pub head_bucket : Text → Exec W (Unit {0})
  pub presign_put : Text → Text → ℕ → Exec W Text
  pub presign_get : Text → Text → ℕ → Exec W Text
  pub is_not_found : GoError → Bool

abbrev pub default_presign_ttl : ℕ
default_presign_ttl = 900000000000

unfoldable pub presign_ttl : ℕ → ℕ
presign_ttl ttl = if ttl == 0 then default_presign_ttl else ttl

module _ {W Body : Type 0} (client : S3Api W Body) (bucket : Text) where
  unfoldable pub put_object : Text → Body → ℤ → Exec W (Unit {0})
  put_object key content content_length =
      on_error (storage StorageOperation.put) (client.put bucket key content content_length)

  unfoldable pub get_object : Text → Exec W Body
  get_object key = on_error (storage StorageOperation.get) (client.get bucket key)

  -- An object that is not found is an answer, not an error.
  head_result : Result (Unit {0}) → Result Bool
  head_result (ok u) = ok true
  head_result (err e) =
      if client.is_not_found e then ok false else err (storage StorageOperation.head e)

  unfoldable pub head_object : Text → Exec W Bool
  unfolding head_result
  head_object key w = let (r, w') = client.head bucket key w in (head_result r, w')

  unfoldable pub check_bucket : Exec W (Unit {0})
  check_bucket = on_error (wrapped "failed to head bucket") (client.head_bucket bucket)

  unfoldable pub generate_put_url : Text → ℕ → Exec W Text
  unfolding presign_ttl
  generate_put_url key ttl =
      on_error (wrapped "failed to presign put object")
        (client.presign_put bucket key (presign_ttl ttl))

  unfoldable pub generate_get_url : Text → ℕ → Exec W Text
  unfolding presign_ttl
  generate_get_url key ttl =
      on_error (wrapped "failed to presign get object")
        (client.presign_get bucket key (presign_ttl ttl))

  -- S3Client as the usecase.ObjectStorage
  unfoldable pub s3_storage : ObjectStorage W Body
  unfolding put_object get_object
  s3_storage = record { put_object = put_object; get_object = get_object }
