-- ===== src/Infra/Postgres/Objects/Laws.antt =====
-- Rows and objects.
-- An object is read back from the row that it is written as.
use cargohold.Domain.Object.{LfsObject, reconstruct_lfs_object}
use cargohold.Domain.Object.Laws.{IsObject, reconstruct_of_IsObject}
use cargohold.Domain.Oid.{new_hash_algorithm, new_oid, new_size, new_storage_key}
use cargohold.Domain.Oid.Laws.{
  new_hash_algorithm_idem, new_oid-eq-ok_iff, new_oid-value, new_size_idem, new_storage_key_idem,
}
use cargohold.Exec.{ok}
use cargohold.Exec.Keeps.{then_ok-eq-ok}
use cargohold.Infra.Postgres.{LfsObjectRow}
use cargohold.Infra.Postgres.Objects.{domain_to_row, row_to_domain}
use cargohold.Prelude.{◌≡◌}

pub row_to_domain-domain_to_row :
    (x : LfsObject) → IsObject x → row_to_domain (domain_to_row x) ≡ ok x
unfolding row_to_domain domain_to_row
row_to_domain-domain_to_row x v = rw (v.hex, v.sized) (reconstruct_of_IsObject x v)

-- A row that is read is as the constructors make objects, under the OID of the row.
pub row_to_domain-IsObject :
    (row : LfsObjectRow) (x : LfsObject)
    → row_to_domain row ≡ ok x
    → IsObject x × (x.oid.value ≡ row.oid) × (x.created_at ≡ row.created_at)
unfolding row_to_domain reconstruct_lfs_object
row_to_domain-IsObject row x h =
    let (oid, hex, h) = then_ok-eq-ok (new_oid row.oid) _ h in
    let (size, sized, h) = then_ok-eq-ok (new_size row.size) _ h in
    let (algorithm, hashed, h) = then_ok-eq-ok (new_hash_algorithm row.hash_algo) _ h in
    let (sk, keyed, e) = then_ok-eq-ok (new_storage_key row.storage_key) _ h in
    (
      record {
        hex = cc (e, new_oid-value row.oid oid hex);
        sized = cc (e, new_size_idem row.size size sized);
        hashed = cc (e, new_hash_algorithm_idem row.hash_algo algorithm hashed);
        keyed = cc (e, new_storage_key_idem row.storage_key sk keyed);
      },
      cc (e, ((new_oid-eq-ok_iff row.oid oid).0 hex).0),
      cc e,
    )
