-- ===== src/Handler/BatchApi.antt =====
-- internal/handler/batch_handler.go and internal/handler/dto/batch_request_dto.go, over the batch use
-- case. The parts of a request are what the handler reads of echo's context; a user that is not set,
-- or of another type, is `none`. encoding/json and mime are parameters.
pub mod Laws
use cargohold.Domain.Operation.{RepositoryPermissions, can_download, can_upload, parse_operation}
use cargohold.Domain.Repository.{RepositoryIdentifier, new_repository_identifier}
use cargohold.Domain.User.{UserInfo}
use cargohold.Exec.{Result, err, ok, then_ok}
use cargohold.Exec.Read.{read_limited}
use cargohold.Failure.{
  GoError, access_denied, invalid_hash_algorithm, invalid_oid, invalid_operation, invalid_size,
  is_error, no_objects,
}
use cargohold.Handler.Http.{Reply, and_then, answered, app_error, lfs_error, validate_lfs_headers}
use cargohold.Ports.{Services}
use cargohold.Prelude.{
  Bool, List, Option, String, [], false, if◌then◌else◌, inl, inr, length, ltb, none, not, some, suc,
  ℕ, ◌++◌, ◌∷◌, ◌⊎◌,
}
use cargohold.Prelude.Text.{Text, codes, text_eq}
use cargohold.Usecase.Batch.{Caller, handle_batch_request}
use cargohold.Usecase.Request.{BatchRequest, RefInfo, RequestObject}
use cargohold.Usecase.Response.{BatchResponse}

-- dto.BatchRequestDTO; `ref` is the name of the reference.
pub record BatchRequestDto : Type 0 where
  pub operation : Text
  pub objects : List RequestObject
  pub transfers : List Text
  pub ref : Option Text
  pub hash_algo : Text

unfoldable pub ref_info : Option Text → Option RefInfo
ref_info none = none
ref_info (some name) = some (record { name = name })

unfoldable pub to_batch_request :
    BatchRequestDto → Option RepositoryIdentifier → Result BatchRequest
unfolding parse_operation ref_info
to_batch_request d repo = then_ok (parse_operation d.operation) λ op. ok (record {
  operation = op;
  objects = d.objects;
  transfers = d.transfers;
  ref = ref_info d.ref;
  hash_algo = d.hash_algo;
  repository = repo;
})

pub record BatchHttpRequest : Type 0 where
  pub accept : Text
  pub content_type : Text
  pub owner : Text
  pub repo : Text
  pub bytes : Text
  pub broken : Option GoError
  pub user : Option UserInfo
  pub tls : Bool
  pub forwarded_proto : Text
  pub host : Text
  pub authorization : Text

abbrev pub max_body_size : ℕ
max_body_size = 10485760

-- what is returned, if the permissions are missing
unfoldable pub operation_refusal : Text → RepositoryPermissions → Bool
unfolding text_eq can_upload can_download
operation_refusal operation permissions =
    if text_eq operation (codes "upload")
    then not (can_upload permissions)
    else if text_eq operation (codes "download")
    then not (can_download permissions)
    else false

forbidden : {B : Type 0} → String → Option (Reply B)
forbidden message = some (app_error 403 message none)

permission_refusal : {B : Type 0} → Text → Option RepositoryPermissions → Option (Reply B)
unfolding forbidden operation_refusal
permission_refusal operation none = forbidden "このオペレーションを実行する権限がありません"
permission_refusal operation (some permissions) =
    if operation_refusal operation permissions then forbidden "このオペレーションを実行する権限がありません" else none

unfoldable pub check_permissions : {B : Type 0} → Option UserInfo → Text → Option (Reply B)
unfolding permission_refusal
check_permissions none operation = forbidden "認証情報が見つかりません"
check_permissions (some user_info) operation = permission_refusal operation user_info.permissions

unfoldable pub get_base_url : BatchHttpRequest → Text
unfolding text_eq
get_base_url c =
    let scheme =
      if text_eq c.forwarded_proto []
      then (if c.tls then codes "https" else codes "http")
      else c.forwarded_proto in
    scheme ++ (codes "://" ++ c.host)

unfoldable pub handle_use_case_error : {B : Type 0} → GoError → Reply B
unfolding is_error
handle_use_case_error e =
    if is_error e invalid_operation
    then app_error 422 "不正なオペレーションです" (some e)
    else if is_error e no_objects
    then app_error 422 "オブジェクトが指定されていません" (some e)
    else if is_error e invalid_oid
    then app_error 422 "不正なOIDです" (some e)
    else if is_error e invalid_size
    then app_error 422 "不正なサイズです" (some e)
    else if is_error e invalid_hash_algorithm
    then app_error 422 "不正なハッシュアルゴリズムです" (some e)
    else if is_error e access_denied
    then app_error 403 "アクセスが拒否されました" (some e)
    else app_error 500 "サーバー内部エラーが発生しました" (some e)

module _ (parse_media_type : Text → Option Text) (unmarshal : Text → Result BatchRequestDto) where
  abbrev Flow : Type 0 → Type 0
  Flow A = Reply BatchResponse ⊎ A

  or_bad_request : Option String → Flow (Unit {0})
  or_bad_request none = inr tt
  or_bad_request (some message) = inl (lfs_error 400 message)

  or_reply : {A : Type 0} → ℕ → String → Result A → Flow A
  or_reply status message (ok a) = inr a
  or_reply status message (err e) = inl (lfs_error status message)

  check_size : Text → Flow Text
  check_size body_bytes =
      if ltb max_body_size (length body_bytes)
      then inl (lfs_error 413 "リクエストボディが大きすぎます")
      else inr body_bytes

  or_permitted : {A : Type 0} → Option (Reply BatchResponse) → A → Flow A
  or_permitted none a = inr a
  or_permitted (some refusal) a = inl refusal

  -- all that comes before the use case
  unfoldable pub prepare :
      BatchHttpRequest → Reply BatchResponse ⊎ (RepositoryIdentifier × BatchRequest)
  unfolding or_bad_request validate_lfs_headers or_reply check_size or_permitted read_limited
      to_batch_request check_permissions new_repository_identifier
  prepare c =
      and_then (or_bad_request (validate_lfs_headers parse_media_type c.accept c.content_type)) λ _.
        and_then
          (or_reply 400 "リポジトリ識別子の形式が不正です" (new_repository_identifier (c.owner ++ b'/' ∷ c.repo)))
          λ repo_id.
            and_then
              (or_reply 422 "リクエストボディのパースに失敗しました"
                (read_limited (suc max_body_size) c.bytes c.broken))
              λ body_bytes. and_then (check_size body_bytes) λ body_bytes.
                and_then (or_reply 422 "リクエストボディのパースに失敗しました" (unmarshal body_bytes)) λ req_dto.
                  and_then
                    (or_reply 422 "リクエストボディのパースに失敗しました" (to_batch_request req_dto (some repo_id)))
                    λ req. or_permitted (check_permissions c.user req_dto.operation) (repo_id, req)

  batch_reply : Result BatchResponse → Reply BatchResponse
  unfolding handle_use_case_error
  batch_reply (ok resp) = answered 200 resp
  batch_reply (err e) = handle_use_case_error e

  module _ {W : Type 0} (s : Services W) where
    abbrev pub caller_of : BatchHttpRequest → RepositoryIdentifier → Caller
    caller_of c repo_id = record {
      base_url = get_base_url c;
      owner = repo_id.owner;
      repo = repo_id.name;
      auth_header = c.authorization;
    }

    serve :
        BatchHttpRequest
        → Reply BatchResponse ⊎ (RepositoryIdentifier × BatchRequest)
        → W
        → Reply BatchResponse × W
    unfolding handle_batch_request batch_reply get_base_url
    serve c (inl r) w = (r, w)
    serve c (inr (repo_id, req)) w =
        let (r, w') = handle_batch_request s (caller_of c repo_id) req w in (batch_reply r, w')

    -- BatchHandler.Handle
    unfoldable pub handle_batch : BatchHttpRequest → W → Reply BatchResponse × W
    unfolding serve prepare
    handle_batch c w = serve c (prepare c) w
