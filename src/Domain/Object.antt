-- ===== src/Domain/Object.antt =====
-- internal/domain/lfs_object.go. `now` is what ctxtime.Now(ctx) answers; an instant is a number. What a
-- store keeps of an instant is said of the store.
pub mod Laws
use cargohold.Domain.Oid.{HashAlgorithm, Oid, Size, StorageKey, new_hash_algorithm, new_storage_key}
use cargohold.Exec.{Result, ok, then_ok}
use cargohold.Prelude.{Bool, false, true, ℕ}
use cargohold.Prelude.Text.{Text}

abbrev pub Time : Type 0
Time = ℕ

pub record LfsObject : Type 0 where
  pub oid : Oid
  pub size : Size
  pub hash_algo : HashAlgorithm
  pub storage_key : StorageKey
  pub uploaded : Bool
  pub created_at : Time
  pub updated_at : Time

unfoldable pub new_lfs_object : Time → Oid → Size → HashAlgorithm → Text → Result LfsObject
unfolding new_storage_key
new_lfs_object now oid size hash_algo storage_key = then_ok (new_storage_key storage_key) λ sk.
    ok (record {
      oid = oid;
      size = size;
      hash_algo = hash_algo;
      storage_key = sk;
      uploaded = false;
      created_at = now;
      updated_at = now;
    })

unfoldable pub reconstruct_lfs_object :
    Oid → Size → Text → Text → Bool → Time → Time → Result LfsObject
unfolding new_storage_key new_hash_algorithm
reconstruct_lfs_object oid size hash_algo storage_key uploaded created_at updated_at =
    then_ok (new_hash_algorithm hash_algo) λ algorithm. then_ok (new_storage_key storage_key) λ sk.
      ok (record {
        oid = oid;
        size = size;
        hash_algo = algorithm;
        storage_key = sk;
        uploaded = uploaded;
        created_at = created_at;
        updated_at = updated_at;
      })

unfoldable pub mark_as_uploaded : Time → LfsObject → LfsObject
mark_as_uploaded now o = record o { uploaded = true; updated_at = now }
