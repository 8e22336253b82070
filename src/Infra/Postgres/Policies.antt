-- ===== src/Infra/Postgres/Policies.antt =====
-- internal/infrastructure/postgres/access_policy_dao.go and access_policy_repository.go.
pub mod Laws
use cargohold.Domain.Oid.{Oid, new_oid}
use cargohold.Domain.Policy.{AccessPolicy, new_access_policy_id}
use cargohold.Domain.Repository.{RepositoryIdentifier, full_name, new_repository_identifier}
use cargohold.Exec.{Exec, Result, lift, ok, on_error, pure, raise, then_ok, ◌>>=◌, ◌>>◌}
use cargohold.Failure.{access_policy_not_found, no_rows, plain}
use cargohold.Infra.Caching.{find_by_oid, save}
use cargohold.Infra.Postgres.{
  AccessPolicyRow, Pool, affected, delete_policy, row_error, upsert_policy,
}
use cargohold.Ports.{AccessPolicyRepository}
use cargohold.Prelude.{Option, none, some}
use cargohold.Prelude.Text.{Text}

unfoldable pub row_to_access_policy : AccessPolicyRow → Result AccessPolicy
unfolding new_access_policy_id new_oid new_repository_identifier
row_to_access_policy row = then_ok (new_access_policy_id row.id) λ policy_id.
    then_ok (new_oid row.lfs_object_oid) λ oid.
      then_ok (new_repository_identifier row.repository) λ repo.
        ok (record {
          id = policy_id;
          oid = oid;
          repository = some repo;
          created_at = row.created_at;
        })

-- The identifier is the one that policy.Repository() points to.
unfoldable pub access_policy_to_row : AccessPolicy → RepositoryIdentifier → AccessPolicyRow
unfolding full_name
access_policy_to_row policy repository = record {
  id = policy.id.value;
  lfs_object_oid = policy.oid.value;
  repository = full_name repository;
  created_at = policy.created_at;
}

module _ {W : Type 0} (pool : Pool W) where
  -- AccessPolicyDAO
  unfoldable pub find_policy_row : Text → Exec W AccessPolicyRow
  unfolding row_error
  find_policy_row oid = on_error (row_error no_rows) (pool.policy_row oid)

  unfoldable pub upsert_policy_row : AccessPolicyRow → Exec W (Unit {0})
  upsert_policy_row row = do
    pool.exec (upsert_policy row.lfs_object_oid row.repository row.created_at)
    pure tt

  unfoldable pub delete_policy_row : Text → Exec W (Unit {0})
  unfolding affected
  delete_policy_row oid = do n ← pool.exec (delete_policy oid); affected n

  -- AccessPolicyRepositoryImpl
  unfoldable pub find_policy : Oid → Exec W (Option AccessPolicy)
  unfolding find_policy_row row_error row_to_access_policy
  find_policy oid = do
    row ← on_error (row_error access_policy_not_found) (find_policy_row oid.value)
    policy ← lift (row_to_access_policy row)
    pure (some policy)

  -- A nil repository is dereferenced, which panics; the error stands for the panic.
  save_owned : AccessPolicy → Option RepositoryIdentifier → Exec W (Unit {0})
  unfolding access_policy_to_row upsert_policy_row
  save_owned policy none = raise (plain "invalid memory address or nil pointer dereference")
  save_owned policy (some repository) = upsert_policy_row (access_policy_to_row policy repository)

  unfoldable pub save_policy : AccessPolicy → Exec W (Unit {0})
  unfolding save_owned
  save_policy policy = save_owned policy policy.repository

  unfoldable pub remove_policy : Oid → Exec W (Unit {0})
  unfolding delete_policy_row row_error
  remove_policy oid = on_error (row_error access_policy_not_found) (delete_policy_row oid.value)

  unfoldable pub access_policy_repository : AccessPolicyRepository W
  unfolding find_policy save_policy remove_policy
  access_policy_repository = record {
    find_by_oid = find_policy;
    save = save_policy;
    delete = remove_policy;
  }
