-- ===== src/Usecase/Request.antt =====
-- internal/usecase/batch_request.go and verify_request.go. The constructor and the getters of a
-- BatchRequest copy its slices, which are values here.
pub mod Laws
use cargohold.Domain.Oid.{new_hash_algorithm, new_oid, new_size}
use cargohold.Domain.Operation.{Operation, operation_download, operation_eq, operation_upload}
use cargohold.Domain.Repository.{RepositoryIdentifier}
use cargohold.Exec.{Result, err, is_ok, ok, then_ok}
use cargohold.Failure.{
  invalid_hash_algorithm, invalid_oid, invalid_operation, invalid_size, no_objects, sentinel,
}
use cargohold.Prelude.{Bool, List, Option, [], false, if◌then◌else◌, is_empty, ltb, not, ◌&&◌, ◌∷◌}
use cargohold.Prelude.Int.{negsuc, pos, ℤ}
use cargohold.Prelude.Text.{Text, codes, text_eq}

pub record RequestObject : Type 0 where
  pub oid : Text
  pub size : ℤ

pub record RefInfo : Type 0 where
  pub name : Text

pub record BatchRequest : Type 0 where
  pub operation : Operation
  pub objects : List RequestObject
  pub transfers : List Text
  pub ref : Option RefInfo
  pub hash_algo : Text
  pub repository : Option RepositoryIdentifier

-- the loop of `Validate`
pub validate_objects : List RequestObject → Result (Unit {0})
validate_objects [] = ok tt
validate_objects (obj ∷ objects) =
    if not (is_ok (new_oid obj.oid))
    then err (sentinel invalid_oid)
    else if not (is_ok (new_size obj.size))
    then err (sentinel invalid_size)
    else validate_objects objects

pub validate_hash : Text → Result (Unit {0})
validate_hash hash_algo =
    if not (is_ok (new_hash_algorithm hash_algo))
    then err (sentinel invalid_hash_algorithm)
    else ok tt

unfoldable pub validate : BatchRequest → Result (Unit {0})
unfolding validate_objects validate_hash
validate r =
    if not (operation_eq r.operation operation_upload)
      && not (operation_eq r.operation operation_download)
    then err (sentinel invalid_operation)
    else if is_empty r.objects
    then err (sentinel no_objects)
    else then_ok (validate_objects r.objects) λ _. validate_hash r.hash_algo

pub record VerifyRequest : Type 0 where
  pub oid : Text
  pub size : ℤ

-- size <= 0
abbrev pub is_positive : ℤ → Bool
is_positive (pos n) = ltb 0 n
is_positive (negsuc n) = false

unfoldable pub validate_verify : VerifyRequest → Result (Unit {0})
validate_verify r =
    if text_eq r.oid []
    then err (sentinel invalid_oid)
    else if not (is_ok (new_oid r.oid))
    then err (sentinel invalid_oid)
    else if not (is_positive r.size)
    then err (sentinel invalid_size)
    else ok tt

-- The name of the hash algorithm that a request is served with.
unfoldable pub hash_algo_or_default : Text → Text
hash_algo_or_default hash_algo = if text_eq hash_algo [] then codes "sha256" else hash_algo
