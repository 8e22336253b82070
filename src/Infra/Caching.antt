-- ===== src/Infra/Caching.antt =====
-- internal/infrastructure/caching_lfs_object_repository.go over the interfaces of
-- internal/usecase/cache_interfaces.go. The key generator and the configuration are those of
-- internal/infrastructure/redis. JSON coding is the cache client's, which is a parameter here.
pub mod Laws
pub mod Lookup
pub mod Store
use cargohold.Domain.Object.{LfsObject, Time, reconstruct_lfs_object}
use cargohold.Domain.Oid.{Oid, new_oid, new_size}
use cargohold.Exec.{Exec, Result, attempt, err, ok, pure, then_ok, ◌>>=◌, ◌>>◌}
use cargohold.Infra.CacheKeys.{batch_upload_key, metadata_key, metadata_ttl}
use cargohold.Ports.{LfsObjectRepository}
use cargohold.Prelude.{Bool, true, ℕ}
use cargohold.Prelude.Int.{ℤ}
use cargohold.Prelude.Text.{Text}

pub record CachedMetadata : Type 0 where
  pub oid : Text
  pub size : ℤ
  pub hash_algo : Text
  pub storage_key : Text
  pub uploaded : Bool
  pub created_at : Time
  pub updated_at : Time

-- usecase.CacheClient, at the type that this repository stores; `Set` is not used.
pub record CacheClient (W : Type 0) : Type 0 where
  pub exists : Text → Exec W Bool
  pub get_json : Text → Exec W CachedMetadata
  pub set_json : Text → CachedMetadata → ℕ → Exec W (Unit {0})
  pub delete : Text → Exec W (Unit {0})

-- the literal in `cacheMetadata`
pub metadata_of : LfsObject → CachedMetadata
metadata_of obj = record {
  oid = obj.oid.value;
  size = obj.size.value;
  hash_algo = obj.hash_algo.value;
  storage_key = obj.storage_key.value;
  uploaded = obj.uploaded;
  created_at = obj.created_at;
  updated_at = obj.updated_at;
}

-- a cached entry as an object, if it passes the checks
pub rebuild : CachedMetadata → Result LfsObject
unfolding new_oid new_size reconstruct_lfs_object
rebuild cached = then_ok (new_oid cached.oid) λ cached_oid.
    then_ok (new_size cached.size) λ cached_size.
      reconstruct_lfs_object cached_oid cached_size cached.hash_algo cached.storage_key
        cached.uploaded cached.created_at cached.updated_at

module _ {W : Type 0} (repo : LfsObjectRepository W) (cache_client : CacheClient W) where
  open cache_client use {exists, get_json, set_json, delete}

  -- A failure to write the cache is dropped.
  pub cache_metadata : Oid → LfsObject → Exec W (Unit {0})
  cache_metadata oid obj = do
    attempt (set_json (metadata_key oid.value) (metadata_of obj) metadata_ttl)
    pure tt

  -- A hit that can be rebuilt is the answer; anything else asks the repository.
  cached_or_stored : Oid → Result LfsObject → Exec W LfsObject
  cached_or_stored oid (ok obj) = pure obj
  cached_or_stored oid (err e) = do obj ← repo.find_by_oid oid; cache_metadata oid obj; pure obj

  unfoldable pub find_by_oid : Oid → Exec W LfsObject
  unfolding cached_or_stored cache_metadata rebuild metadata_of
  find_by_oid oid = do
    cached ← attempt (get_json (metadata_key oid.value))
    cached_or_stored oid (then_ok cached rebuild)

  unfoldable pub save : LfsObject → Exec W (Unit {0})
  unfolding cache_metadata metadata_of
  save obj = do repo.save obj; cache_metadata obj.oid obj

  unfoldable pub update : LfsObject → Exec W (Unit {0})
  unfolding cache_metadata metadata_of
  update obj = do repo.update obj; cache_metadata obj.oid obj

  cached_exists : Oid → Result Bool → Exec W Bool
  cached_exists oid (ok true) = pure true
  cached_exists oid _ = repo.exists_by_oid oid

  unfoldable pub exists_by_oid : Oid → Exec W Bool
  unfolding cached_exists
  exists_by_oid oid = do found ← attempt (exists (metadata_key oid.value)); cached_exists oid found

  unfoldable pub delete_batch_upload_key : Text → Exec W (Unit {0})
  delete_batch_upload_key oid = delete (batch_upload_key oid)

  -- CachingLFSObjectRepository as a domain.LFSObjectRepository
  unfoldable pub caching_repository : LfsObjectRepository W
  unfolding find_by_oid save update exists_by_oid
  caching_repository = record {
    find_by_oid = find_by_oid;
    save = save;
    update = update;
    exists_by_oid = exists_by_oid;
  }
