-- ===== src/Usecase/Batch.antt =====
-- internal/usecase/batch_upload_usecase.go, batch_download_usecase.go and batch_usecase.go.
mod Rounds
pub mod Shape
pub mod Ownership
use cargohold.Domain.Oid.{Oid, Size, new_oid, new_size}
use cargohold.Domain.Operation.{Operation, operation_download, operation_eq, operation_upload}
use cargohold.Domain.Policy.{new_access_policy_id}
use cargohold.Domain.Repository.{RepositoryIdentifier}
use cargohold.Exec.{
  Exec, Result, always, err, gets, lift, map_err, ok, on_error, pure, raise, ◌>>=◌, ◌>>◌,
}
use cargohold.Failure.{access_denied, invalid_operation, sentinel, wrapped}
use cargohold.Ports.{AccessPolicyRepository, Services}
use cargohold.Prelude.{
  Bool, List, Option, [], false, if◌then◌else◌, none, not, some, true, ◌&&◌, ◌++◌, ◌∷◌,
}
use cargohold.Prelude.Int.{pos}
use cargohold.Prelude.Text.{Text}
use cargohold.Tests.World.{answer}
use cargohold.Usecase.Authorize.{AuthorizationResult, check_authorization}
use cargohold.Usecase.Download.{handle_download_object}
use cargohold.Usecase.Request.{BatchRequest, RequestObject, hash_algo_or_default, validate}
use cargohold.Usecase.Response.{BatchResponse, ObjectError, ResponseObject, default_transfer_type}
use cargohold.Usecase.Upload.{handle_upload_object}

-- The parts of a request that the answers are made from.
pub record Caller : Type 0 where
  pub base_url : Text
  pub owner : Text
  pub repo : Text
  pub auth_header : Text

-- if req.Operation() != … { return ErrInvalidOperation }
abbrev pub check_operation : Operation → Operation → Result (Unit {0})
check_operation wanted operation =
    if not (operation_eq operation wanted) then err (sentinel invalid_operation) else ok tt

abbrev pub new_batch_response : List ResponseObject → Text → BatchResponse
new_batch_response objects hash_algo = record {
  transfer = default_transfer_type;
  objects = objects;
  hash_algo = hash_algo;
}

abbrev is_none : Option ObjectError → Bool
is_none none = true
is_none (some e) = false

module _ {W : Type 0} where
  -- `append(objects, respObj)` round by round; an error ends the loop and drops the answers.
  pub each_object :
      (RequestObject → Exec W ResponseObject)
      → List ResponseObject
      → List RequestObject
      → Exec W (List ResponseObject)
  each_object one objects [] = pure objects
  each_object one objects (req_obj ∷ rest) = do
    answer ← one req_obj
    each_object one (objects ++ answer ∷ []) rest

  -- The frame of both handlers: `one` is a round, given the name of the hash algorithm.
  pub run_batch :
      Operation
      → (Text → RequestObject → Exec W ResponseObject)
      → BatchRequest
      → Exec W BatchResponse
  run_batch wanted one req = do
    lift (validate req)
    lift (check_operation wanted req.operation)
    let hash_algo = hash_algo_or_default req.hash_algo
    objects ← each_object (one hash_algo) [] req.objects
    pure (new_batch_response objects hash_algo)

-- What both loops do first in each round: parse the object, and ask whether the operation is allowed.
module _ {W : Type 0} (policies : AccessPolicyRepository W)
    (repository : Option RepositoryIdentifier) (operation : Operation)
    (act : AuthorizationResult → Oid → Size → Exec W ResponseObject) where
  pub authorized : Oid → Size → Exec W ResponseObject
  authorized oid size = do
    auth ← check_authorization policies operation repository oid
    if not auth.allowed then raise (sentinel access_denied) else act auth oid size

  pub round : RequestObject → Exec W ResponseObject
  round req_obj = do
    oid ← lift (map_err (wrapped "無効なOID") (new_oid req_obj.oid))
    size ← lift (map_err (wrapped "無効なサイズ") (new_size req_obj.size))
    authorized oid size

module _ {W : Type 0} (s : Services W) (c : Caller) where
  open s use {now, policies}
  open c use {base_url, owner, repo, auth_header}

  pub create_access_policy : Oid → Option RepositoryIdentifier → Exec W (Unit {0})
  create_access_policy oid repository = do
    policy_id ← lift (new_access_policy_id (pos 0))
    created_at ← gets now
    policies.save
        (record { id = policy_id; oid = oid; repository = repository; created_at = created_at })

  -- after the answer is made: a new object gets its policy, unless the answer is an error
  pub settle_upload :
      Bool → Oid → Option RepositoryIdentifier → ResponseObject → Exec W ResponseObject
  settle_upload is_new oid repository answer =
      if is_new && is_none answer.object_error
      then (do
        on_error (wrapped "アクセスポリシーの作成に失敗しました") (create_access_policy oid repository)
        pure answer)
      else pure answer

  -- the rest of a round of HandleBatchUpload
  pub upload_allowed :
      Option RepositoryIdentifier → Text → AuthorizationResult → Oid → Size → Exec W ResponseObject
  upload_allowed repository hash_algo auth oid size = do
    answer ← always (handle_upload_object s base_url owner repo oid size hash_algo auth_header)
    settle_upload auth.is_new_object oid repository answer

  pub upload_one : Option RepositoryIdentifier → Text → RequestObject → Exec W ResponseObject
  upload_one repository hash_algo =
      round policies repository operation_upload (upload_allowed repository hash_algo)

  -- the rest of a round of HandleBatchDownload
  pub download_allowed : AuthorizationResult → Oid → Size → Exec W ResponseObject
  download_allowed auth oid size =
      always (handle_download_object s base_url owner repo oid size auth_header)

  pub download_one : Option RepositoryIdentifier → RequestObject → Exec W ResponseObject
  download_one repository = round policies repository operation_download download_allowed

  unfoldable pub handle_batch_upload : BatchRequest → Exec W BatchResponse
  unfolding run_batch each_object round authorized upload_one upload_allowed settle_upload
      create_access_policy
  handle_batch_upload req = run_batch operation_upload (upload_one req.repository) req

  unfoldable pub handle_batch_download : BatchRequest → Exec W BatchResponse
  unfolding run_batch each_object round authorized download_one download_allowed
  handle_batch_download req = run_batch operation_download (λ _. download_one req.repository) req

  -- BatchUseCase.HandleBatchRequest
  unfoldable pub handle_batch_request : BatchRequest → Exec W BatchResponse
  handle_batch_request req =
      if operation_eq req.operation operation_download
      then handle_batch_download req
      else handle_batch_upload req
