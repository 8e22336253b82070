-- ===== src/Usecase/Upload.antt =====
-- internal/usecase/upload_usecase.go: the answer to one object of an upload batch.
pub mod Laws
pub mod Served
pub mod Keeps
use cargohold.Domain.Object.{LfsObject, new_lfs_object}
use cargohold.Domain.Oid.{Oid, Size, new_hash_algorithm}
use cargohold.Exec.{Result, err, ok}
use cargohold.Failure.{is_error, not_found}
use cargohold.Ports.{Services}
use cargohold.Prelude.{if◌then◌else◌, none, not, some}
use cargohold.Prelude.Int.{int_eq}
use cargohold.Prelude.Text.{Text}
use cargohold.Usecase.Response.{ResponseObject, accepted, action_at, refused}

module _ {W : Type 0} (s : Services W) where
  open s use {now, objects, urls, generate_storage_key}

  -- the last part of the handler
  unfoldable pub upload_answer : Text → Text → Text → Oid → Size → Text → ResponseObject
  unfolding accepted
  upload_answer base_url owner repo oid size auth_header =
      let url = urls.generate_upload_url base_url owner repo oid.value in
      accepted oid.value size.value
        (some (record { upload = some (action_at url auth_header); download = none }))

  -- what follows the call of `Save`
  answer_saved : Oid → Size → ResponseObject → Result (Unit {0}) → ResponseObject
  answer_saved oid size answer (ok u) = answer
  answer_saved oid size answer (err e) = refused oid.value size.value 500 "メタデータの保存に失敗しました"

  save_new : Oid → Size → ResponseObject → LfsObject → W → ResponseObject × W
  save_new oid size answer obj w =
      let (saved, w') = objects.save obj w in (answer_saved oid size answer saved, w')

  -- the branch of an object that is not there yet
  create_object : Oid → Size → Text → ResponseObject → W → ResponseObject × W
  create_object oid size hash_algo answer w = elim (generate_storage_key oid.value hash_algo) [
    | err e ↦ (refused oid.value size.value 400 "無効なストレージキーパラメータです", w)
    | ok storage_key ↦ elim (new_hash_algorithm hash_algo) [
      | err e ↦ (refused oid.value size.value 400 "無効なハッシュアルゴリズムです", w)
      | ok algorithm ↦ elim (new_lfs_object (now w) oid size algorithm storage_key) [
        | err e ↦ (refused oid.value size.value 500 "メタデータの作成に失敗しました", w)
        | ok obj ↦ save_new oid size answer obj w
      ]
    ]
  ]

  -- the two branches after the lookup
  upload_found : Oid → Size → Text → ResponseObject → Result LfsObject → W → ResponseObject × W
  upload_found oid size hash_algo answer (err e) w =
      if not (is_error e not_found)
      then (refused oid.value size.value 500 "メタデータの取得に失敗しました", w)
      else create_object oid size hash_algo answer w
  upload_found oid size hash_algo answer (ok obj) w =
      if obj.uploaded
      then (if not (int_eq obj.size.value size.value)
          then (refused oid.value size.value 409 "オブジェクトサイズが一致しません", w)
          else (accepted oid.value size.value none, w))
      else (answer, w)

  unfoldable pub handle_upload_object :
      Text → Text → Text → Oid → Size → Text → Text → W → ResponseObject × W
  unfolding upload_found create_object save_new answer_saved upload_answer refused accepted
  handle_upload_object base_url owner repo oid size hash_algo auth_header w =
      let (found, w') = objects.find_by_oid oid w in
      upload_found oid size hash_algo (upload_answer base_url owner repo oid size auth_header) found
        w'
