-- ===== src/Usecase/Authorize.antt =====
-- internal/domain/access_authorization_service_impl.go and
-- internal/usecase/authorization_helper.go.
pub mod Laws
use cargohold.Domain.Oid.{Oid}
use cargohold.Domain.Operation.{Operation, operation_eq, operation_upload}
use cargohold.Domain.Policy.{AccessPolicy}
use cargohold.Domain.Repository.{RepositoryIdentifier, equals}
use cargohold.Exec.{Exec, Result, attempt, err, lift, ok, on_error, raise, ◌>>=◌}
use cargohold.Failure.{
  GoError, access_denied, access_policy_not_found, authorization_denied,
  invalid_repository_identifier, is_error, sentinel, wrapped,
}
use cargohold.Infra.Caching.{find_by_oid}
use cargohold.Ports.{AccessPolicyRepository}
use cargohold.Prelude.{Bool, Option, false, if◌then◌else◌, none, not, some, true, ◌||◌}

pub record AuthorizationResult : Type 0 where
  pub allowed : Bool
  pub is_new_object : Bool

-- the branch of a missing policy
pub authorize_new : Operation → Result AuthorizationResult
authorize_new operation =
    if operation_eq operation operation_upload
    then ok (record { allowed = true; is_new_object = true })
    else err (sentinel authorization_denied)

-- `Authorize` after the lookup
pub authorize_found :
    Operation → RepositoryIdentifier → Result (Option AccessPolicy) → Result AuthorizationResult
authorize_found operation user_repo (err e) =
    if is_error e access_policy_not_found then authorize_new operation else err e
authorize_found operation user_repo (ok none) = authorize_new operation
authorize_found operation user_repo (ok (some policy)) =
    if not (equals (some user_repo) policy.repository)
    then err (sentinel authorization_denied)
    else ok (record { allowed = true; is_new_object = false })

-- `CanAccess` after the lookup
pub accessible : RepositoryIdentifier → Option AccessPolicy → Result Bool
accessible user_repo none = err (sentinel access_policy_not_found)
accessible user_repo (some policy) = ok (equals (some user_repo) policy.repository)

-- the cases of CheckAuthorization's errors
pub authorization_error : GoError → GoError
authorization_error e =
    if is_error e authorization_denied || is_error e invalid_repository_identifier
    then sentinel access_denied
    else wrapped "認可判定に失敗しました" e

module _ {W : Type 0} (policies : AccessPolicyRepository W) where
  open policies use {find_by_oid}

  unfoldable pub can_access : Option RepositoryIdentifier → Oid → Exec W Bool
  unfolding ◌>>=◌
  can_access none oid = raise (sentinel invalid_repository_identifier)
  can_access (some user_repo) oid = do policy ← find_by_oid oid; lift (accessible user_repo policy)

  unfoldable pub authorize :
      Operation → Option RepositoryIdentifier → Oid → Exec W AuthorizationResult
  unfolding authorize_found ◌>>=◌
  authorize operation none oid = raise (sentinel invalid_repository_identifier)
  authorize operation (some user_repo) oid = do
    found ← attempt (find_by_oid oid)
    lift (authorize_found operation user_repo found)

  unfoldable pub check_authorization :
      Operation → Option RepositoryIdentifier → Oid → Exec W AuthorizationResult
  unfolding authorize authorize_found authorize_new authorization_error on_error
  check_authorization operation user_repo oid =
      on_error authorization_error (authorize operation user_repo oid)
