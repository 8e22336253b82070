-- ===== src/Usecase/Request/Laws.antt =====
-- What a request that passed `Validate` is like.
-- The meaning of `Validate`.
use cargohold.Domain.Oid.{new_oid, new_size}
use cargohold.Domain.Oid.Laws.{is_ok-new_hash_algorithm, is_ok-new_oid, is_ok-new_size}
use cargohold.Domain.Operation.{operation_download, operation_upload}
use cargohold.Domain.Operation.Laws.{operation_eq_iff}
use cargohold.Exec.{ok}
use cargohold.Prelude.{All, List, [], arith, ◌↔◌, ◌∷◌, ◌≡◌, ◌≢◌, ◌⊎◌}
use cargohold.Prelude.Text.{Text, codes}
use cargohold.Usecase.Request.{
  BatchRequest, RequestObject, validate, validate_hash, validate_objects,
}

pub record IsValidRequest (r : BatchRequest) : Type 0 where
  pub known : (r.operation ≡ operation_upload) ⊎ (r.operation ≡ operation_download)
  pub not_empty : r.objects ≢ []
  pub oids : All (λ x. new_oid x.oid ≡ ok (record { value = x.oid })) r.objects
  pub sizes : All (λ x. new_size x.size ≡ ok (record { value = x.size })) r.objects
  pub hash : (r.hash_algo ≡ []) ⊎ (r.hash_algo ≡ codes "sha256")

validate_objects_iff :
    (objects : List RequestObject)
    → (validate_objects objects ≡ ok tt) ↔ (
        All (λ x. new_oid x.oid ≡ ok (record { value = x.oid })) objects
        × All (λ x. new_size x.size ≡ ok (record { value = x.size })) objects)
unfolding validate_objects
validate_objects_iff [] = ground arith
validate_objects_iff (x ∷ xs) = (
  (λ h. ground (arith, is_ok-new_oid x.oid, is_ok-new_size x.size, validate_objects_iff xs)),
  λ h. ground (arith, is_ok-new_oid x.oid, is_ok-new_size x.size, validate_objects_iff xs),
)

validate_hash_iff : (s : Text) → (validate_hash s ≡ ok tt) ↔ ((s ≡ []) ⊎ (s ≡ codes "sha256"))
unfolding validate_hash
validate_hash_iff s = (
  (λ h. ground (arith, is_ok-new_hash_algorithm s)),
  λ h. ground (arith, is_ok-new_hash_algorithm s),
)

-- `Validate` accepts exactly the valid requests.
pub validate_iff : (r : BatchRequest) → (validate r ≡ ok tt) ↔ IsValidRequest r
unfolding validate
validate_iff r = (
  (λ h. ground (
    arith,
    operation_eq_iff r.operation operation_upload,
    operation_eq_iff r.operation operation_download,
    validate_objects_iff r.objects,
    validate_hash_iff r.hash_algo,
  )),
  λ h. ground (
    arith,
    operation_eq_iff r.operation operation_upload,
    operation_eq_iff r.operation operation_download,
    validate_objects_iff r.objects,
    validate_hash_iff r.hash_algo,
  ),
)
