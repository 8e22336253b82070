-- ===== src/Tests/ProxyTests.antt =====
-- Proxied transfers in the world in memory.
use cargohold.Domain.Repository.{equals, new_repository_identifier}
use cargohold.Exec.{ok, ◌>>=◌}
use cargohold.Prelude.{refl, ◌≡◌}
use cargohold.Prelude.Int.{pos, ℤ}
use cargohold.Prelude.Text.{Text, codes, text_eq}
use cargohold.Tests.Samples.{sample_oid, uploaded_object, waiting_object}
use cargohold.Tests.World.{Inv, World, object_storage, services}
use cargohold.Tests.WorldLaws.{world-IsLawful}
use cargohold.Tests.Worlds.{uploaded_world-Inv, waiting_world-Inv, world_of}
use cargohold.Usecase.Authorize.{check_authorization}
use cargohold.Usecase.Marking.{Marks}
use cargohold.Usecase.Proxy.{proxy_download, proxy_upload}
use cargohold.Usecase.Proxy.Laws.{
  IsFetched, IsStored, proxy_download-IsFetched, proxy_upload-IsStored, proxy_upload-Marks,
}

put_object-Inv :
    (k : Text) (b : Text) (n : ℤ) (w : World) → Inv w → Inv (object_storage.put_object k b n w).1
put_object-Inv k b n w v = v

put_object-objects :
    (k : Text) (b : Text) (n : ℤ) (w : World) (j : Text)
    → Inv w
    → (object_storage.put_object k b n w).1.objects j ≡ w.objects j
put_object-objects k b n w j v = refl

proxy_upload-Marks_example :
    Marks services
      (λ w. w.objects)
      Inv
      world-IsLawful.objects
      (world_of waiting_object)
      (proxy_upload services object_storage
        (codes "octo")
        (codes "files")
        sample_oid
        (codes "hello")
        (world_of waiting_object)).1
proxy_upload-Marks_example =
    proxy_upload-Marks services object_storage (λ w. w.objects) (λ w. w.policies) Inv world-IsLawful
      put_object-Inv put_object-objects (codes "octo") (codes "files") sample_oid (codes "hello")
      (world_of waiting_object) waiting_world-Inv

abbrev sent_world : World
sent_world =
    (proxy_upload services object_storage (codes "octo") (codes "files") sample_oid (codes "hello")
      (world_of waiting_object)).1

sent :
    proxy_upload services object_storage
      (codes "octo")
      (codes "files")
      sample_oid
      (codes "hello")
      (world_of waiting_object)
    ≡ (ok tt, sent_world)
unfolding proxy_upload check_authorization new_repository_identifier ◌>>=◌ text_eq equals
sent = refl

proxy_upload-IsStored_example :
    IsStored services object_storage
      (λ w. w.objects)
      (λ w. w.policies)
      Inv
      world-IsLawful
      put_object-Inv
      put_object-objects
      (codes "octo")
      (codes "files")
      sample_oid
      (codes "hello")
      (world_of waiting_object)
      sent_world
proxy_upload-IsStored_example =
    proxy_upload-IsStored services object_storage (λ w. w.objects) (λ w. w.policies) Inv
      world-IsLawful put_object-Inv put_object-objects (codes "octo") (codes "files") sample_oid
      (codes "hello") (world_of waiting_object) sent_world waiting_world-Inv sent

fetched :
    proxy_download services object_storage
      (codes "octo")
      (codes "files")
      sample_oid
      (world_of uploaded_object)
    ≡ (ok (codes "hello", pos 5), world_of uploaded_object)
unfolding proxy_download check_authorization new_repository_identifier ◌>>=◌ text_eq equals
fetched = refl

proxy_download-IsFetched_example :
    IsFetched services object_storage
      (λ w. w.objects)
      (λ w. w.policies)
      Inv
      world-IsLawful
      put_object-Inv
      put_object-objects
      (codes "octo")
      (codes "files")
      sample_oid
      (codes "hello")
      (pos 5)
      (world_of uploaded_object)
proxy_download-IsFetched_example =
    proxy_download-IsFetched services object_storage (λ w. w.objects) (λ w. w.policies) Inv
      world-IsLawful put_object-Inv put_object-objects (codes "octo") (codes "files") sample_oid
      (codes "hello") (pos 5) (world_of uploaded_object) (world_of uploaded_object)
      uploaded_world-Inv fetched
