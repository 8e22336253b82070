-- ===== src/Usecase/Upload/Laws.antt =====
-- What an upload answer says, and what it does to the stored objects.
use cargohold.Domain.Object.{LfsObject}
use cargohold.Domain.Oid.{Oid, Size}
use cargohold.Exec.{Result, err, ok}
use cargohold.Ports.{Services}
use cargohold.Prelude.{[], arith, refl, ◌∷◌, ◌≡◌}
use cargohold.Prelude.Int.{pos}
use cargohold.Prelude.Text.{Text, codes, text_eq}
use cargohold.Usecase.Response.{Action, ResponseObject, accepted, action_at, refused}
use cargohold.Usecase.Upload.{
  answer_saved, create_object, handle_upload_object, save_new, upload_answer, upload_found,
}

-- The answer is about the object that was asked for, on every branch.
abbrev pub IsAbout : Oid → Size → ResponseObject → Type 0
IsAbout oid size answer = (answer.oid ≡ oid.value) × (answer.size ≡ size.value)

-- The action at a URL: for 900 seconds, with the Authorization header of the request if there is one.
abbrev pub sent_to : Text → Text → Action
sent_to url [] = record { href = url; header = []; expires_in = pos 900 }
sent_to url (c ∷ auth_header) = record {
  href = url;
  header = (codes "Authorization", c ∷ auth_header) ∷ [];
  expires_in = pos 900;
}

pub action_at-sent_to :
    (url auth_header : Text) → action_at url auth_header ≡ sent_to url auth_header
unfolding action_at text_eq
action_at-sent_to url [] = refl
action_at-sent_to url (c ∷ auth_header) = refl

module _ {W : Type 0} (s : Services W) where
  save_new-IsAbout :
      (oid : Oid) (size : Size) (answer : ResponseObject) (obj : LfsObject) (w : W)
      → IsAbout oid size answer
      → IsAbout oid size (save_new s oid size answer obj w).0
  unfolding save_new answer_saved refused
  save_new-IsAbout oid size answer obj w h = ground arith

  create_object-IsAbout :
      (oid : Oid) (size : Size) (hash_algo : Text) (answer : ResponseObject) (w : W)
      → IsAbout oid size answer
      → IsAbout oid size (create_object s oid size hash_algo answer w).0
  unfolding create_object refused
  create_object-IsAbout oid size hash_algo answer w h = grind (arith, save_new-IsAbout)

  upload_found-IsAbout :
      (oid : Oid) (size : Size) (hash_algo : Text) (answer : ResponseObject)
      (found : Result LfsObject) (w : W)
      → IsAbout oid size answer
      → IsAbout oid size (upload_found s oid size hash_algo answer found w).0
  unfolding upload_found refused accepted
  upload_found-IsAbout oid size hash_algo answer (err e) w h =
      ground (arith, create_object-IsAbout oid size hash_algo answer w h)
  upload_found-IsAbout oid size hash_algo answer (ok obj) w h = ground arith

  pub handle_upload_object-IsAbout :
      (base_url owner repo : Text) (oid : Oid) (size : Size) (hash_algo auth_header : Text) (w : W)
      → IsAbout oid size
          (handle_upload_object s base_url owner repo oid size hash_algo auth_header w).0
  unfolding handle_upload_object
  handle_upload_object-IsAbout base_url owner repo oid size hash_algo auth_header w =
      upload_found-IsAbout oid size hash_algo
        (upload_answer s base_url owner repo oid size auth_header) (s.objects.find_by_oid oid w).0
        (s.objects.find_by_oid oid w).1 (refl, refl)
