-- ===== src/Handler/ProxyApi.antt =====
-- internal/handler/proxy_handler.go over the use cases of the proxied transfers. The deadline of the
-- context is not modelled; what fails by it is an error of the use case.
use cargohold.Domain.Oid.{Oid, new_oid}
use cargohold.Exec.{Result, err, ok}
use cargohold.Failure.{
  GoError, access_denied, deadline_exceeded, is_error, is_storage_error, not_uploaded,
  object_not_found,
}
use cargohold.Handler.Http.{Reply, answered, lfs_error}
use cargohold.Ports.{ObjectStorage, Services}
use cargohold.Prelude.{if◌then◌else◌}
use cargohold.Prelude.Int.{ℤ}
use cargohold.Prelude.Text.{Text}
use cargohold.Usecase.Proxy.{proxy_download, proxy_upload}

pub record ProxyRequest (Body : Type 0) : Type 0 where
  pub owner : Text
  pub repo : Text
  pub oid : Text
  pub content : Body

unfoldable pub handle_proxy_error : {B : Type 0} → GoError → Reply B
unfolding is_error is_storage_error
handle_proxy_error e =
    if is_error e access_denied
    then lfs_error 403 "アクセスが拒否されました"
    else if is_error e object_not_found
    then lfs_error 404 "オブジェクトが存在しません"
    else if is_error e not_uploaded
    then lfs_error 404 "オブジェクトがまだアップロードされていません"
    else if is_error e deadline_exceeded
    then lfs_error 504 "リクエストがタイムアウトしました"
    else if is_storage_error e
    then lfs_error 502 "ストレージサーバーでエラーが発生しました"
    else lfs_error 500 "サーバー内部エラーが発生しました"

proxy_reply : {B : Type 0} → Result B → Reply B
unfolding handle_proxy_error
proxy_reply (ok b) = answered 200 b
proxy_reply (err e) = handle_proxy_error e

module _ {W Body : Type 0} (s : Services W) (storage : ObjectStorage W Body) where
  upload_to : ProxyRequest Body → Result Oid → W → Reply (Unit {0}) × W
  unfolding proxy_upload proxy_reply
  upload_to c (err e) w = (lfs_error 422 "不正なOIDです", w)
  upload_to c (ok oid) w =
      let (r, w') = proxy_upload s storage c.owner c.repo oid c.content w in (proxy_reply r, w')

  unfoldable pub handle_upload : ProxyRequest Body → W → Reply (Unit {0}) × W
  unfolding upload_to new_oid
  handle_upload c w = upload_to c (new_oid c.oid) w

  -- The body is the stream, with the content length.
  download_from : ProxyRequest Body → Result Oid → W → Reply (Body × ℤ) × W
  unfolding proxy_download proxy_reply
  download_from c (err e) w = (lfs_error 422 "不正なOIDです", w)
  download_from c (ok oid) w =
      let (r, w') = proxy_download s storage c.owner c.repo oid w in (proxy_reply r, w')

  unfoldable pub handle_download : ProxyRequest Body → W → Reply (Body × ℤ) × W
  unfolding download_from new_oid
  handle_download c w = download_from c (new_oid c.oid) w
