-- ===== src/Usecase/Download/Laws.antt =====
-- What an answer to a download without an error says of the object and offers.
use cargohold.Domain.Object.{LfsObject}
use cargohold.Domain.Oid.{Oid, Size}
use cargohold.Exec.{Result, err, ok}
use cargohold.Ports.{Services}
use cargohold.Ports.Promises.{IsObjectStore}
use cargohold.Prelude.{Bool-cases, Option, ap, arith, inl, inr, none, refl, some, true, ◌∙◌, ◌≡◌}
use cargohold.Prelude.Text.{Text}
use cargohold.Usecase.Download.{download_answer, download_found, handle_download_object}
use cargohold.Usecase.Response.{ResponseObject, accepted, refused}
use cargohold.Usecase.Upload.Laws.{IsAbout, action_at-sent_to, sent_to}

module _ {W : Type 0} (s : Services W) (stored : W → Text → Option LfsObject) (Inv : W → Type 0)
    (store : IsObjectStore s.objects stored Inv) where
  abbrev pub IsAvailable : Oid → W → Type 0
  IsAvailable oid w = (x : LfsObject) × (stored w oid.value ≡ some x) × (x.uploaded ≡ true)

  download_found-IsAvailable :
      (oid : Oid) (size : Size) (answer : ResponseObject) (r : Result LfsObject) (w : W)
      → ((x : LfsObject) → r ≡ ok x → stored w oid.value ≡ some x)
      → (download_found s oid size answer r).object_error ≡ none
      → IsAvailable oid w × (download_found s oid size answer r ≡ answer)
  unfolding download_found refused
  download_found-IsAvailable oid size answer (err e) w there h = ground arith
  download_found-IsAvailable oid size answer (ok x) w there h = elim (Bool-cases x.uploaded) [
    | inl done ↦ ((x, there x refl, done), rw done)
    | inr waits ↦ cc (rw waits at h)
  ]

  -- From a sound world, over a repository that keeps its promises: an answer without an error is
  -- for the OID and size that were asked for, it offers a download from the URL of the object and no
  -- upload, and the object is stored and uploaded.
  pub handle_download_object-IsAvailable :
      (base_url owner repo : Text) (oid : Oid) (size : Size) (auth_header : Text) (w : W)
      → Inv w
      → (handle_download_object s base_url owner repo oid size auth_header w).0.object_error ≡ none
      → IsAvailable oid w
        × ((handle_download_object s base_url owner repo oid size auth_header w).0 ≡ record {
          oid = oid.value;
          size = size.value;
          authenticated = true;
          actions = some (record {
            upload = none;
            download =
                some (
                  sent_to (s.urls.generate_download_url base_url owner repo oid.value) auth_header);
          });
          object_error = none;
        })
  unfolding handle_download_object download_answer accepted
  handle_download_object-IsAvailable base_url owner repo oid size auth_header w v h =
      let url = s.urls.generate_download_url base_url owner repo oid.value in
      let (there, same) =
        download_found-IsAvailable oid size
          (download_answer s base_url owner repo oid size auth_header)
          (s.objects.find_by_oid oid w).0 w (λ x e. store.find-ok oid w x v e) h in
      (
        there,
        same
            ∙ ap
                (λ a.
                  accepted oid.value size.value
                    (some (record { upload = none; download = some a })))
                (action_at-sent_to url auth_header),
      )

module _ {W : Type 0} (s : Services W) where
  download_found-IsAbout :
      (oid : Oid) (size : Size) (answer : ResponseObject) (r : Result LfsObject)
      → IsAbout oid size answer
      → IsAbout oid size (download_found s oid size answer r)
  unfolding download_found refused
  download_found-IsAbout oid size answer (err e) h = ground arith
  download_found-IsAbout oid size answer (ok x) h = ground arith

  pub handle_download_object-IsAbout :
      (base_url owner repo : Text) (oid : Oid) (size : Size) (auth_header : Text) (w : W)
      → IsAbout oid size (handle_download_object s base_url owner repo oid size auth_header w).0
  unfolding handle_download_object
  handle_download_object-IsAbout base_url owner repo oid size auth_header w =
      download_found-IsAbout oid size (download_answer s base_url owner repo oid size auth_header)
        (s.objects.find_by_oid oid w).0 (refl, refl)
