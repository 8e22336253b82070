-- ===== src/Usecase/Download.antt =====
-- internal/usecase/download_usecase.go: the answer to one object of a download batch.
pub mod Laws
use cargohold.Domain.Object.{LfsObject}
use cargohold.Domain.Oid.{Oid, Size}
use cargohold.Exec.{Result, err, ok}
use cargohold.Failure.{is_error, not_found}
use cargohold.Ports.{Services}
use cargohold.Prelude.{if◌then◌else◌, none, not, some}
use cargohold.Prelude.Text.{Text}
use cargohold.Usecase.Response.{ResponseObject, accepted, action_at, refused}

module _ {W : Type 0} (s : Services W) where
  open s use {objects, urls}

  unfoldable pub download_answer : Text → Text → Text → Oid → Size → Text → ResponseObject
  unfolding accepted
  download_answer base_url owner repo oid size auth_header =
      let url = urls.generate_download_url base_url owner repo oid.value in
      accepted oid.value size.value
        (some (record { upload = none; download = some (action_at url auth_header) }))

  -- the branches after the lookup
  download_found : Oid → Size → ResponseObject → Result LfsObject → ResponseObject
  download_found oid size answer (err e) =
      if is_error e not_found
      then refused oid.value size.value 404 "オブジェクトが存在しません"
      else refused oid.value size.value 500 "メタデータの取得に失敗しました"
  download_found oid size answer (ok obj) =
      if not obj.uploaded then refused oid.value size.value 404 "オブジェクトがまだアップロードされていません" else answer

  unfoldable pub handle_download_object :
      Text → Text → Text → Oid → Size → Text → W → ResponseObject × W
  unfolding download_found download_answer refused accepted
  handle_download_object base_url owner repo oid size auth_header w =
      let (found, w') = objects.find_by_oid oid w in
      (download_found oid size (download_answer base_url owner repo oid size auth_header) found, w')
