-- ===== src/Infra/S3/Laws.antt =====
-- Every failure of a transfer is recognized as one of the storage.
use mathlib.Core.Path.{subst}
use cargohold.Exec.{Result, err, map_err, ok, on_error}
use cargohold.Exec.Keeps.{err_inj}
use cargohold.Failure.{GoError, StorageOperation, is_storage_error, storage}
use cargohold.Infra.S3.{S3Api, get_object, put_object}
use cargohold.Prelude.{refl, true, ◌≡◌}
use cargohold.Prelude.Int.{ℤ}
use cargohold.Prelude.Text.{Text}

module _ {W Body : Type 0} (client : S3Api W Body) (bucket : Text) where
  storage_failed :
      {A : Type 0} (op : StorageOperation) (r : Result A) (e : GoError)
      → map_err (storage op) r ≡ err e
      → is_storage_error e ≡ true
  unfolding is_storage_error
  storage_failed op (ok a) e h = cc h
  storage_failed op (err x) e h = subst (λ y. is_storage_error y ≡ true) (err_inj h) refl

  pub put_object_failed :
      (key : Text) (content : Body) (n : ℤ) (w : W) (e : GoError)
      → (put_object client bucket key content n w).0 ≡ err e
      → is_storage_error e ≡ true
  unfolding put_object on_error
  put_object_failed key content n w e h =
      storage_failed StorageOperation.put (client.put bucket key content n w).0 e h

  pub get_object_failed :
      (key : Text) (w : W) (e : GoError)
      → (get_object client bucket key w).0 ≡ err e
      → is_storage_error e ≡ true
  unfolding get_object on_error
  get_object_failed key w e h = storage_failed StorageOperation.get (client.get bucket key w).0 e h
