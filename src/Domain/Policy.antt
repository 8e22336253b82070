-- ===== src/Domain/Policy.antt =====
-- internal/domain/access_policy.go and access_policy_id.go.
use cargohold.Domain.Object.{Time}
use cargohold.Domain.Oid.{Oid}
use cargohold.Domain.Repository.{RepositoryIdentifier}
use cargohold.Exec.{Result, err, ok}
use cargohold.Failure.{invalid_access_policy_id, sentinel}
use cargohold.Prelude.{Option, if◌then◌else◌}
use cargohold.Prelude.Int.{is_negative, ℤ}

pub record AccessPolicyId : Type 0 where
  pub value : ℤ

unfoldable pub new_access_policy_id : ℤ → Result AccessPolicyId
new_access_policy_id value =
    if is_negative value
    then err (sentinel invalid_access_policy_id)
    else ok (record { value = value })

-- The program never makes a policy with a nil repository: both callers check it first.
pub record AccessPolicy : Type 0 where
  pub id : AccessPolicyId
  pub oid : Oid
  pub repository : Option RepositoryIdentifier
  pub created_at : Time
