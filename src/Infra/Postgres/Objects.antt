-- ===== src/Infra/Postgres/Objects.antt =====
-- internal/infrastructure/postgres/dao.go and lfs_object_repository.go.
pub mod Laws
pub mod Store
pub mod Changes
pub mod Writes
use cargohold.Domain.Object.{LfsObject, reconstruct_lfs_object}
use cargohold.Domain.Oid.{Oid, new_oid, new_size}
use cargohold.Exec.{Exec, Result, lift, on_error, pure, then_ok, ◌>>=◌, ◌>>◌}
use cargohold.Failure.{no_rows, not_found}
use cargohold.Infra.Caching.{exists_by_oid, find_by_oid, save, update}
use cargohold.Infra.Postgres.{LfsObjectRow, Pool, affected, insert_object, row_error, update_object}
use cargohold.Ports.{LfsObjectRepository}
use cargohold.Prelude.{Bool}
use cargohold.Prelude.Text.{Text}

unfoldable pub row_to_domain : LfsObjectRow → Result LfsObject
unfolding new_oid new_size reconstruct_lfs_object
row_to_domain row = then_ok (new_oid row.oid) λ oid. then_ok (new_size row.size) λ size.
    reconstruct_lfs_object oid size row.hash_algo row.storage_key row.uploaded row.created_at
      row.updated_at

unfoldable pub domain_to_row : LfsObject → LfsObjectRow
domain_to_row obj = record {
  oid = obj.oid.value;
  size = obj.size.value;
  hash_algo = obj.hash_algo.value;
  storage_key = obj.storage_key.value;
  uploaded = obj.uploaded;
  created_at = obj.created_at;
  updated_at = obj.updated_at;
}

module _ {W : Type 0} (pool : Pool W) where
  -- LFSObjectDAO
  unfoldable pub find_row : Text → Exec W LfsObjectRow
  unfolding row_error
  find_row oid = on_error (row_error no_rows) (pool.object_row oid)

  unfoldable pub insert_row : LfsObjectRow → Exec W (Unit {0})
  insert_row row = do pool.exec (insert_object row); pure tt

  unfoldable pub update_row : LfsObjectRow → Exec W (Unit {0})
  unfolding affected
  update_row row = do
    n ←
        pool.exec
          (update_object row.oid row.size row.hash_algo row.storage_key row.uploaded row.updated_at)
    affected n

  unfoldable pub row_exists : Text → Exec W Bool
  row_exists oid = pool.object_exists oid

  -- LFSObjectRepositoryImpl
  unfoldable pub find_object : Oid → Exec W LfsObject
  unfolding find_row row_error row_to_domain
  find_object oid = do
    row ← on_error (row_error not_found) (find_row oid.value)
    lift (row_to_domain row)

  unfoldable pub save_object : LfsObject → Exec W (Unit {0})
  unfolding insert_row domain_to_row
  save_object obj = insert_row (domain_to_row obj)

  unfoldable pub update_object_row : LfsObject → Exec W (Unit {0})
  unfolding update_row domain_to_row row_error
  update_object_row obj = on_error (row_error not_found) (update_row (domain_to_row obj))

  unfoldable pub exists_object : Oid → Exec W Bool
  unfolding row_exists
  exists_object oid = row_exists oid.value

  unfoldable pub lfs_object_repository : LfsObjectRepository W
  unfolding find_object save_object update_object_row exists_object
  lfs_object_repository = record {
    find_by_oid = find_object;
    save = save_object;
    update = update_object_row;
    exists_by_oid = exists_object;
  }
