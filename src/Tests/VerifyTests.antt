-- ===== src/Tests/VerifyTests.antt =====
-- Verification in the world in memory.
use cargohold.Domain.Oid.{new_oid, new_size}
use cargohold.Exec.{Exec, ok, ◌>>=◌}
use cargohold.Infra.Caching.{delete_batch_upload_key}
use cargohold.Prelude.{refl, ◌≡◌}
use cargohold.Prelude.Int.{pos}
use cargohold.Prelude.Text.{Text, text_eq}
use cargohold.Tests.Samples.{digits, waiting_object}
use cargohold.Tests.World.{Inv, World, cache_client, object_repository, services}
use cargohold.Tests.WorldLaws.{world-IsObjectStore}
use cargohold.Tests.Worlds.{waiting_world-Inv, world_of}
use cargohold.Usecase.Marking.{Marks}
use cargohold.Usecase.Verify.{verify_upload}
use cargohold.Usecase.Verify.Laws.{IsVerified, verify_upload-IsVerified, verify_upload-Marks}

abbrev delete_key : Text → Exec World (Unit {0})
delete_key = delete_batch_upload_key object_repository cache_client

delete_key-Inv : (k : Text) (w : World) → Inv w → Inv (delete_key k w).1
unfolding delete_batch_upload_key
delete_key-Inv k w h = h

delete_key-objects :
    (j : Text) (w : World) (k : Text) → Inv w → (delete_key j w).1.objects k ≡ w.objects k
unfolding delete_batch_upload_key
delete_key-objects j w k h = refl

verify_upload-Marks_example :
    Marks services
      (λ w. w.objects)
      Inv
      world-IsObjectStore
      (world_of waiting_object)
      (verify_upload services delete_key digits (pos 5) (world_of waiting_object)).1
verify_upload-Marks_example =
    verify_upload-Marks services delete_key (λ w. w.objects) Inv world-IsObjectStore delete_key-Inv
      delete_key-objects digits (pos 5) (world_of waiting_object) waiting_world-Inv

abbrev verified_world : World
verified_world = (verify_upload services delete_key digits (pos 5) (world_of waiting_object)).1

verified :
    verify_upload services delete_key digits (pos 5) (world_of waiting_object)
    ≡ (ok tt, verified_world)
unfolding verify_upload delete_batch_upload_key ◌>>=◌ text_eq new_oid new_size
verified = refl

verify_upload-IsVerified_example :
    IsVerified services delete_key
      (λ w. w.objects)
      Inv
      world-IsObjectStore
      delete_key-Inv
      delete_key-objects
      digits
      (pos 5)
      (world_of waiting_object)
      verified_world
verify_upload-IsVerified_example =
    verify_upload-IsVerified services delete_key (λ w. w.objects) Inv world-IsObjectStore
      delete_key-Inv delete_key-objects digits (pos 5) (world_of waiting_object) verified_world
      waiting_world-Inv verified
