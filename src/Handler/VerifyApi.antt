-- ===== src/Handler/VerifyApi.antt =====
-- internal/handler/verify_handler.go over the verification.
use cargohold.Domain.Repository.{RepositoryIdentifier, new_repository_identifier}
use cargohold.Exec.{Exec, Result, err, ok}
use cargohold.Failure.{
  GoError, invalid_oid, invalid_size, is_error, object_not_found, size_mismatch,
}
use cargohold.Handler.Http.{Reply, answered, lfs_error, validate_lfs_headers}
use cargohold.Ports.{Services}
use cargohold.Prelude.{Option, String, if◌then◌else◌, none, some, ◌++◌, ◌∷◌}
use cargohold.Prelude.Text.{Text}
use cargohold.Usecase.Request.{VerifyRequest, validate_verify}
use cargohold.Usecase.Verify.{verify_upload}

pub record VerifyHttpRequest : Type 0 where
  pub accept : Text
  pub content_type : Text
  pub owner : Text
  pub repo : Text
  pub bytes : Text

-- The default is for errors that Validate does not have.
unfoldable pub invalid_request : GoError → Reply (Unit {0})
unfolding is_error
invalid_request e =
    if is_error e invalid_oid
    then lfs_error 400 "oidフィールドは必須です"
    else if is_error e invalid_size
    then lfs_error 400 "sizeフィールドは正の整数である必要があります"
    else lfs_error 400 "err.Error()"

unfoldable pub verify_failure : GoError → Reply (Unit {0})
unfolding is_error
verify_failure e =
    if is_error e invalid_oid
    then lfs_error 400 "OID形式が不正です"
    else if is_error e object_not_found
    then lfs_error 404 "オブジェクトが見つかりません"
    else if is_error e size_mismatch
    then lfs_error 422 "サイズが一致しません"
    else lfs_error 500 "サーバー内部エラーが発生しました"

-- `decode` is json.NewDecoder(body).Decode.
module _ {W : Type 0} (s : Services W) (delete_batch_upload_key : Text → Exec W (Unit {0}))
    (parse_media_type : Text → Option Text) (decode : Text → Result VerifyRequest) where
  verify_reply : Result (Unit {0}) × W → Reply (Unit {0}) × W
  unfolding verify_failure
  verify_reply (ok u, w) = (answered 200 tt, w)
  verify_reply (err e, w) = (verify_failure e, w)

  verify_valid : VerifyRequest → Result (Unit {0}) → W → Reply (Unit {0}) × W
  unfolding verify_reply verify_upload invalid_request
  verify_valid req (err e) w = (invalid_request e, w)
  verify_valid req (ok u) w =
      verify_reply (verify_upload s delete_batch_upload_key req.oid req.size w)

  verify_decoded : Result VerifyRequest → W → Reply (Unit {0}) × W
  unfolding verify_valid validate_verify
  verify_decoded (err e) w = (lfs_error 400 "リクエストボディの解析に失敗しました", w)
  verify_decoded (ok req) w = verify_valid req (validate_verify req) w

  verify_in : VerifyHttpRequest → Result RepositoryIdentifier → W → Reply (Unit {0}) × W
  unfolding verify_decoded
  verify_in c (err e) w = (lfs_error 400 "リポジトリ識別子の形式が不正です", w)
  verify_in c (ok repository) w = verify_decoded (decode c.bytes) w

  verify_headed : VerifyHttpRequest → Option String → W → Reply (Unit {0}) × W
  unfolding verify_in new_repository_identifier
  verify_headed c (some message) w = (lfs_error 400 message, w)
  verify_headed c none w = verify_in c (new_repository_identifier (c.owner ++ b'/' ∷ c.repo)) w

  -- VerifyHandler: the body of the answer is the constant {"message": "success"}.
  unfoldable pub handle_verify : VerifyHttpRequest → W → Reply (Unit {0}) × W
  unfolding verify_headed validate_lfs_headers
  handle_verify c w =
      verify_headed c (validate_lfs_headers parse_media_type c.accept c.content_type) w
