-- ===== src/Usecase/Upload/Keeps.antt =====
-- What an upload answer keeps, for any property of the world that looking up and saving keep.
use cargohold.Domain.Object.{LfsObject, new_lfs_object}
use cargohold.Domain.Object.Laws.{IsObject, new_lfs_object-IsObject}
use cargohold.Domain.Oid.{Oid, Size, new_hash_algorithm, new_oid, new_size}
use cargohold.Exec.{Result, err, ok}
use cargohold.Exec.Keeps.{Result-cases}
use cargohold.Failure.{is_error, not_found}
use cargohold.Ports.{Services}
use cargohold.Prelude.{Bool-cases, inl, inr, ◌≡◌}
use cargohold.Prelude.Int.{int_eq}
use cargohold.Prelude.Text.{Text}
use cargohold.Usecase.Response.{ResponseObject}
use cargohold.Usecase.Upload.{
  create_object, handle_upload_object, save_new, upload_answer, upload_found,
}

module _ {W : Type 0} (s : Services W) (P : W → Type 0)
    (find-P : (o : Oid) (w : W) → P w → P (s.objects.find_by_oid o w).1)
    (save-P : (x : LfsObject) (w : W) → IsObject x → P w → P (s.objects.save x w).1) (oid : Oid)
    (size : Size) (hex : new_oid oid.value ≡ ok oid) (sized : new_size size.value ≡ ok size) where
  create_object-keeps :
      (hash_algo : Text) (answer : ResponseObject) (w : W)
      → P w
      → P (create_object s oid size hash_algo answer w).1
  unfolding create_object save_new
  create_object-keeps hash_algo answer w v =
      elim (Result-cases (s.generate_storage_key oid.value hash_algo)) [
        | inr (e, refusal) ↦ rw (refusal, create_object) v
        | inl (key, keyed) ↦ elim (Result-cases (new_hash_algorithm hash_algo)) [
          | inr (e, refusal) ↦ rw (keyed, refusal, create_object) v
          | inl (h, hashed) ↦ elim (Result-cases (new_lfs_object (s.now w) oid size h key)) [
            | inr (e, refusal) ↦ rw (keyed, hashed, refusal, create_object) v
            | inl (x, made) ↦
                rw (keyed, hashed, made, create_object)
                  (save-P x w
                    (new_lfs_object-IsObject (s.now w) oid size hash_algo key h x hex sized hashed
                      made).0
                    v)
          ]
        ]
      ]

  upload_found-keeps :
      (hash_algo : Text) (answer : ResponseObject) (r : Result LfsObject) (w : W)
      → P w
      → P (upload_found s oid size hash_algo answer r w).1
  unfolding upload_found
  upload_found-keeps hash_algo answer (err e) w v = elim (Bool-cases (is_error e not_found)) [
    | inl t ↦ rw t (create_object-keeps hash_algo answer w v)
    | inr f ↦ rw f v
  ]
  upload_found-keeps hash_algo answer (ok x) w v = elim (Bool-cases x.uploaded) [
    | inr waits ↦ rw waits v
    | inl done ↦ elim (Bool-cases (int_eq x.size.value size.value)) [
      | inr differs ↦ rw (done, differs) v
      | inl agrees ↦ rw (done, agrees) v
    ]
  ]

  pub handle_upload_object-keeps :
      (base_url owner repo hash_algo auth_header : Text) (w : W)
      → P w
      → P (handle_upload_object s base_url owner repo oid size hash_algo auth_header w).1
  unfolding handle_upload_object
  handle_upload_object-keeps base_url owner repo hash_algo auth_header w v =
      upload_found-keeps hash_algo (upload_answer s base_url owner repo oid size auth_header)
        (s.objects.find_by_oid oid w).0 (s.objects.find_by_oid oid w).1 (find-P oid w v)
