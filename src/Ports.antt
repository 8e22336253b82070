-- ===== src/Ports.antt =====
-- The interfaces between the use cases and the world: internal/domain/repository.go,
-- access_policy_repository.go and access_authorization_service.go, internal/usecase/
-- external_interfaces.go and cache_key_manager.go. `W` is the state behind them. What the
-- implementations promise is stated in the child module, as laws that theorems take.
pub mod Promises
use cargohold.Domain.Object.{LfsObject, Time}
use cargohold.Domain.Oid.{Oid}
use cargohold.Domain.Policy.{AccessPolicy}
use cargohold.Exec.{Exec, Result}
use cargohold.Prelude.{Bool, Option}
use cargohold.Prelude.Int.{ℤ}
use cargohold.Prelude.Text.{Text}

-- domain.LFSObjectRepository; an object that is returned without an error is not nil.
pub record LfsObjectRepository (W : Type 0) : Type 0 where
  pub find_by_oid : Oid → Exec W LfsObject
  pub save : LfsObject → Exec W (Unit {0})
  pub update : LfsObject → Exec W (Unit {0})
  pub exists_by_oid : Oid → Exec W Bool

-- domain.AccessPolicyRepository; `none` is a nil policy.
pub record AccessPolicyRepository (W : Type 0) : Type 0 where
  pub find_by_oid : Oid → Exec W (Option AccessPolicy)
  pub save : AccessPolicy → Exec W (Unit {0})
  pub delete : Oid → Exec W (Unit {0})

-- usecase.ActionURLGenerator: base URL, owner, repository and OID
pub record ActionUrlGenerator : Type 0 where
  pub generate_upload_url : Text → Text → Text → Text → Text
  pub generate_download_url : Text → Text → Text → Text → Text

-- usecase.ObjectStorage; `Body` stands for what a reader yields.
pub record ObjectStorage (W Body : Type 0) : Type 0 where
  pub put_object : Text → Body → ℤ → Exec W (Unit {0})
  pub get_object : Text → Exec W Body

-- What the use cases are built from: `now` is ctxtime.Now, `generate_storage_key` is
-- usecase.StorageKeyGenerator.
pub record Services (W : Type 0) : Type 0 where
  pub now : W → Time
  pub objects : LfsObjectRepository W
  pub policies : AccessPolicyRepository W
  pub urls : ActionUrlGenerator
  pub generate_storage_key : Text → Text → Result Text
