-- ===== src/Usecase/Batch/Shape.antt =====
-- The answers of a batch stand in the order of the requested objects, one for each.
-- One answer for each requested object, about that object.
use mathlib.Core.Path.{subst}
use cargohold.Domain.Oid.{Oid, Size}
use cargohold.Domain.Oid.Laws.{new_oid-eq-ok_iff, new_size-value}
use cargohold.Domain.Operation.{Operation, operation_download, operation_eq, operation_upload}
use cargohold.Domain.Repository.{RepositoryIdentifier}
use cargohold.Exec.{Exec, ok}
use cargohold.Exec.Keeps.{always_returned, bind_returned, pure_returned}
use cargohold.Ports.{AccessPolicyRepository, Services}
use cargohold.Prelude.{
  Bool, Bool-cases, List, Option, [], ap, append-nil, append_assoc, inl, inr, sym, ◌&&◌, ◌++◌, ◌∙◌,
  ◌∷◌, ◌≡◌,
}
use cargohold.Prelude.Text.{Text, codes}
use cargohold.Usecase.Authorize.{AuthorizationResult}
use cargohold.Usecase.Batch.{
  Caller, download_allowed, download_one, each_object, handle_batch_download, handle_batch_request,
  handle_batch_upload, is_none, round, run_batch, settle_upload, upload_allowed, upload_one,
}
use cargohold.Usecase.Batch.Rounds.{round_returned, run_batch_returned}
use cargohold.Usecase.Download.Laws.{handle_download_object-IsAbout}
use cargohold.Usecase.Request.{BatchRequest, RequestObject}
use cargohold.Usecase.Request.Laws.{IsValidRequest}
use cargohold.Usecase.Response.{BatchResponse, ResponseObject}
use cargohold.Usecase.Upload.Laws.{IsAbout, handle_upload_object-IsAbout}

abbrev pub Answers : List RequestObject → List ResponseObject → Type 0
Answers [] [] = Unit
Answers (q ∷ qs) (a ∷ bs) = ((a.oid ≡ q.oid) × (a.size ≡ q.size)) × Answers qs bs
Answers [] (a ∷ bs) = ⊥
Answers (q ∷ qs) [] = ⊥

module _ {W : Type 0} where
  -- What one round answers is about the object of the round.
  abbrev IsFaithful : (RequestObject → Exec W ResponseObject) → Type 0
  IsFaithful one =
      (q : RequestObject) (a : ResponseObject) (w w' : W)
      → one q w ≡ (ok a, w')
      → (a.oid ≡ q.oid) × (a.size ≡ q.size)

  each_object-Answers :
      (one : RequestObject → Exec W ResponseObject)
      → IsFaithful one
      → (done : List ResponseObject) (qs : List RequestObject) (w w' : W)
        (out : List ResponseObject)
      → each_object one done qs w ≡ (ok out, w')
      → (bs : List ResponseObject) × (out ≡ done ++ bs) × Answers qs bs
  unfolding each_object
  each_object-Answers one faithful done [] w w' out h =
      ([], sym (pure_returned done out w w' h).0 ∙ sym (append-nil done), tt)
  each_object-Answers one faithful done (q ∷ qs) w w' out h =
      let (a, v, first, rest) = bind_returned (one q) _ w w' out h in
      let (bs, e, more) = each_object-Answers one faithful (done ++ a ∷ []) qs v w' out rest in
      (a ∷ bs, e ∙ append_assoc done (a ∷ []) bs, (faithful q a w v first, more))

  round-IsFaithful :
      (policies : AccessPolicyRepository W) (repository : Option RepositoryIdentifier)
      (operation : Operation) (act : AuthorizationResult → Oid → Size → Exec W ResponseObject)
      → ((auth : AuthorizationResult) (oid : Oid) (size : Size) (a : ResponseObject) (w w' : W)
          → act auth oid size w ≡ (ok a, w')
          → IsAbout oid size a)
      → IsFaithful (round policies repository operation act)
  round-IsFaithful policies repository operation act about q a w w' h =
      let r = round_returned policies repository operation act q a w w' h in
      let (same_oid, same_size) = about r.auth r.oid r.size a r.seen w' r.acted in
      (
        same_oid ∙ ((new_oid-eq-ok_iff q.oid r.oid).0 r.parsed_oid).0,
        same_size ∙ new_size-value q.size r.size r.parsed_size,
      )

module _ {W : Type 0} (s : Services W) (c : Caller) where
  settle_upload-same :
      (is_new : Bool) (oid : Oid) (repository : Option RepositoryIdentifier) (a b : ResponseObject)
      (w w' : W)
      → settle_upload s c is_new oid repository a w ≡ (ok b, w')
      → a ≡ b
  unfolding settle_upload
  settle_upload-same is_new oid repository a b w w' h =
      elim (Bool-cases (is_new && is_none a.object_error)) [
        | inl t ↦
            let (u, v, _, rest) = bind_returned _ _ w w' b (rw t at h) in
            (pure_returned a b v w' rest).0
        | inr f ↦ (pure_returned a b w w' (rw f at h)).0
      ]

  upload_allowed-IsAbout :
      (repository : Option RepositoryIdentifier) (hash_algo : Text) (auth : AuthorizationResult)
      (oid : Oid) (size : Size) (a : ResponseObject) (w w' : W)
      → upload_allowed s c repository hash_algo auth oid size w ≡ (ok a, w')
      → IsAbout oid size a
  unfolding upload_allowed
  upload_allowed-IsAbout repository hash_algo auth oid size a w w' h =
      let (b, v, made, settled) = bind_returned _ _ w w' a h in
      let answered = (always_returned _ b w v made).0 in
      let same = settle_upload-same auth.is_new_object oid repository b a v w' settled in
      subst (IsAbout oid size) (answered ∙ same) (
        handle_upload_object-IsAbout s c.base_url c.owner c.repo oid size hash_algo c.auth_header w)

  download_allowed-IsAbout :
      (auth : AuthorizationResult) (oid : Oid) (size : Size) (a : ResponseObject) (w w' : W)
      → download_allowed s c auth oid size w ≡ (ok a, w')
      → IsAbout oid size a
  unfolding download_allowed
  download_allowed-IsAbout auth oid size a w w' h =
      subst (IsAbout oid size) (always_returned _ a w w' h).0
        (handle_download_object-IsAbout s c.base_url c.owner c.repo oid size c.auth_header w)

  upload_one-IsFaithful :
      (repository : Option RepositoryIdentifier) (hash_algo : Text)
      → IsFaithful (upload_one s c repository hash_algo)
  unfolding upload_one
  upload_one-IsFaithful repository hash_algo =
      round-IsFaithful s.policies repository operation_upload
        (upload_allowed s c repository hash_algo) (upload_allowed-IsAbout repository hash_algo)

  download_one-IsFaithful :
      (repository : Option RepositoryIdentifier) → IsFaithful (download_one s c repository)
  unfolding download_one
  download_one-IsFaithful repository =
      round-IsFaithful s.policies repository operation_download (download_allowed s c)
        download_allowed-IsAbout

  -- A response, whatever the operation: the transfer type is "basic", the hash algorithm is
  -- "sha256", the request was valid, and there is one answer for each object in the order asked.
  pub record IsResponse (req : BatchRequest) (resp : BatchResponse) : Type 0 where
    pub valid : IsValidRequest req
    pub transfer : resp.transfer ≡ codes "basic"
    pub hash_algo : resp.hash_algo ≡ codes "sha256"
    pub answers : Answers req.objects resp.objects

  run_batch-IsResponse :
      (wanted : Operation) (one : Text → RequestObject → Exec W ResponseObject) (req : BatchRequest)
      (resp : BatchResponse) (w w' : W)
      → ((name : Text) → IsFaithful (one name))
      → run_batch wanted one req w ≡ (ok resp, w')
      → IsResponse req resp × (req.operation ≡ wanted)
  run_batch-IsResponse wanted one req resp w w' faithful h =
      let (objects, valid, same, looped, e) = run_batch_returned wanted one req resp w w' h in
      let (bs, collected, answers) =
        each_object-Answers (one (codes "sha256")) (faithful (codes "sha256")) [] req.objects w w'
          objects looped in
      (
        record {
          valid = valid;
          transfer = ap (λ (r : BatchResponse). r.transfer) e;
          hash_algo = ap (λ (r : BatchResponse). r.hash_algo) e;
          answers =
              subst (Answers req.objects)
                (sym collected ∙ ap (λ (r : BatchResponse). r.objects) (sym e)) answers;
        },
        same,
      )

  handle_batch_download-IsResponse :
      (req : BatchRequest) (resp : BatchResponse) (w w' : W)
      → handle_batch_download s c req w ≡ (ok resp, w')
      → IsResponse req resp
  unfolding handle_batch_download
  handle_batch_download-IsResponse req resp w w' h =
      (run_batch-IsResponse operation_download (λ _. download_one s c req.repository) req resp w w'
        (λ name. download_one-IsFaithful req.repository) h).0

  handle_batch_upload-IsResponse :
      (req : BatchRequest) (resp : BatchResponse) (w w' : W)
      → handle_batch_upload s c req w ≡ (ok resp, w')
      → IsResponse req resp
  unfolding handle_batch_upload
  handle_batch_upload-IsResponse req resp w w' h =
      (run_batch-IsResponse operation_upload (upload_one s c req.repository) req resp w w'
        (upload_one-IsFaithful req.repository) h).0

  -- Whatever the services do: a batch that returned was valid, and its response answers each object
  -- of the request, in order, with the transfer type "basic" and the hash algorithm "sha256".
  pub handle_batch_request-IsResponse :
      (req : BatchRequest) (resp : BatchResponse) (w w' : W)
      → handle_batch_request s c req w ≡ (ok resp, w')
      → IsResponse req resp
  unfolding handle_batch_request
  handle_batch_request-IsResponse req resp w w' h =
      elim (Bool-cases (operation_eq req.operation operation_download)) [
        | inl t ↦ handle_batch_download-IsResponse req resp w w' (rw t at h)
        | inr f ↦ handle_batch_upload-IsResponse req resp w w' (rw f at h)
      ]
