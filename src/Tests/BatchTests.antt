-- ===== src/Tests/BatchTests.antt =====
-- Uploads and the authorization in the world in memory.
use cargohold.Domain.Oid.{new_hash_algorithm, new_oid, new_size}
use cargohold.Domain.Operation.{operation_eq, operation_upload}
use cargohold.Domain.Repository.{equals}
use cargohold.Exec.{Result, err, ok, ◌>>=◌}
use cargohold.Infra.Urls.{proxy_action_url_generator}
use cargohold.Prelude.{[], false, none, refl, some, true, ◌↔◌, ◌≡◌}
use cargohold.Prelude.Int.{pos}
use cargohold.Prelude.Text.{codes, text_eq}
use cargohold.Tests.DomainTests.{waiting_object-IsObject}
use cargohold.Tests.Samples.{
  caller, digits, our_policy, our_repository, sample_oid, sample_size, upload_request,
  uploaded_object, waiting_object,
}
use cargohold.Tests.World.{Inv, World, policy_repository, services, set}
use cargohold.Tests.WorldLaws.{set-same, world-IsLawful, world-IsObjectStore, world-IsPolicyStore}
use cargohold.Tests.Worlds.{uploaded_world-Inv, waiting_world-Inv, world_of}
use cargohold.Usecase.Authorize.{check_authorization}
use cargohold.Usecase.Authorize.Laws.{Permits, check_authorization_iff}
use cargohold.Usecase.Batch.{handle_batch_request, handle_batch_upload}
use cargohold.Usecase.Batch.Ownership.{handle_batch_upload-policy}
use cargohold.Usecase.Batch.Shape.{IsResponse, handle_batch_request-IsResponse}
use cargohold.Usecase.Download.{handle_download_object}
use cargohold.Usecase.Download.Laws.{IsAvailable, handle_download_object-IsAvailable}
use cargohold.Usecase.Request.{hash_algo_or_default, validate}
use cargohold.Usecase.Request.Laws.{IsValidRequest, validate_iff}
use cargohold.Usecase.Response.{BatchResponse}
use cargohold.Usecase.Upload.{handle_upload_object}
use cargohold.Usecase.Upload.Laws.{sent_to}
use cargohold.Usecase.Upload.Served.{Serves, handle_upload_object-IsServed}

handle_batch_upload-policy_example :
    (handle_batch_upload services caller upload_request (world_of waiting_object)).1.policies digits
    ≡ some our_policy
handle_batch_upload-policy_example =
    handle_batch_upload-policy services caller (λ w. w.objects) (λ w. w.policies) Inv world-IsLawful
      upload_request (world_of waiting_object) digits our_policy waiting_world-Inv
      (set-same digits our_policy (λ _. none))

handle_upload_object-IsServed_example :
    Serves services
      (λ w. w.objects)
      Inv
      world-IsObjectStore
      (sent_to
        (proxy_action_url_generator.generate_upload_url
          (codes "http://lfs")
          (codes "octo")
          (codes "files")
          digits)
        [])
      sample_oid
      sample_size
      (world_of waiting_object)
      (handle_upload_object services
        (codes "http://lfs")
        (codes "octo")
        (codes "files")
        sample_oid
        sample_size
        (codes "sha256")
        []
        (world_of waiting_object))
handle_upload_object-IsServed_example =
    handle_upload_object-IsServed services (λ w. w.objects) Inv world-IsObjectStore
      (codes "http://lfs") (codes "octo") (codes "files") sample_oid sample_size (codes "sha256") []
      (world_of waiting_object) waiting_object-IsObject.hex waiting_object-IsObject.sized
      waiting_world-Inv

check_authorization_iff_example :
    ((check_authorization policy_repository operation_upload
        (some our_repository)
        sample_oid
        (world_of waiting_object)).0
      ≡ ok (record { allowed = true; is_new_object = false }))
    ↔ Permits operation_upload our_repository
        (set digits our_policy (λ _. none) digits)
        (record { allowed = true; is_new_object = false })
check_authorization_iff_example =
    check_authorization_iff policy_repository (λ w. w.policies) Inv world-IsPolicyStore
      operation_upload our_repository sample_oid (world_of waiting_object)
      (record { allowed = true; is_new_object = false }) waiting_world-Inv
      (rw (set-same digits our_policy (λ _. none)) (λ e. cc e))

abbrev answered : Result BatchResponse × World
answered = handle_batch_request services caller upload_request (world_of waiting_object)

abbrev response_of : Result BatchResponse → BatchResponse
response_of (ok r) = r
response_of (err e) = record { transfer = []; objects = []; hash_algo = [] }

answered-ok : answered ≡ (ok (response_of answered.0), answered.1)
unfolding handle_batch_request handle_batch_upload validate new_oid new_size new_hash_algorithm
    hash_algo_or_default check_authorization handle_upload_object operation_eq equals ◌>>=◌ text_eq
answered-ok = refl

handle_batch_request-IsResponse_example :
    IsResponse services caller upload_request (response_of answered.0)
handle_batch_request-IsResponse_example =
    handle_batch_request-IsResponse services caller upload_request (response_of answered.0)
      (world_of waiting_object) answered.1 answered-ok

offered :
    (handle_download_object services
      (codes "http://lfs")
      (codes "octo")
      (codes "files")
      sample_oid
      sample_size
      []
      (world_of uploaded_object)).0.object_error
    ≡ none
unfolding handle_download_object text_eq
offered = refl

handle_download_object-IsAvailable_example :
    IsAvailable services
      (λ w. w.objects)
      Inv
      world-IsObjectStore
      sample_oid
      (world_of uploaded_object)
    × ((handle_download_object services
          (codes "http://lfs")
          (codes "octo")
          (codes "files")
          sample_oid
          sample_size
          []
          (world_of uploaded_object)).0
        ≡ record {
          oid = digits;
          size = pos 5;
          authenticated = true;
          actions = some (record {
            upload = none;
            download = some (
                sent_to
                  (proxy_action_url_generator.generate_download_url
                    (codes "http://lfs")
                    (codes "octo")
                    (codes "files")
                    digits)
                  []);
          });
          object_error = none;
        })
handle_download_object-IsAvailable_example =
    handle_download_object-IsAvailable services (λ w. w.objects) Inv world-IsObjectStore
      (codes "http://lfs") (codes "octo") (codes "files") sample_oid sample_size []
      (world_of uploaded_object) uploaded_world-Inv offered

validate_iff_example : (validate upload_request ≡ ok tt) ↔ IsValidRequest upload_request
validate_iff_example = validate_iff upload_request
