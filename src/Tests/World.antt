-- ===== src/Tests/World.antt =====
-- A world in memory, with repositories, a cache and a storage that never fail.
use cargohold.Domain.Object.{LfsObject}
use cargohold.Domain.Object.Laws.{IsObject}
use cargohold.Domain.Policy.{AccessPolicy}
use cargohold.Exec.{Result, err, is_ok, ok}
use cargohold.Failure.{Sentinel, access_policy_not_found, not_found, redis_nil, sentinel}
use cargohold.Infra.Caching.{CacheClient, CachedMetadata}
use cargohold.Infra.StorageKey.{generate_storage_key}
use cargohold.Infra.Urls.{proxy_action_url_generator}
use cargohold.Ports.{AccessPolicyRepository, LfsObjectRepository, ObjectStorage, Services}
use cargohold.Prelude.{Option, if◌then◌else◌, none, some, ◌≡◌}
use cargohold.Prelude.Text.{Text, text_eq}

pub record World : Type 0 where
  pub objects : Text → Option LfsObject
  pub policies : Text → Option AccessPolicy
  pub cached : Text → Option CachedMetadata
  pub blobs : Text → Option Text

abbrev pub set : {A : Type 0} → Text → A → (Text → Option A) → Text → Option A
set k a f j = if text_eq k j then some a else f j

abbrev pub answer : {A : Type 0} → Sentinel → Option A → Result A
answer missing none = err (sentinel missing)
answer missing (some a) = ok a

-- An update leaves the time of creation.
abbrev pub updated : Option LfsObject → LfsObject → LfsObject
updated none x = x
updated (some y) x = record x { created_at = y.created_at }

abbrev pub object_repository : LfsObjectRepository World
object_repository = record {
  find_by_oid = λ o w. (answer not_found (w.objects o.value), w);
  save = λ x w. (ok tt, record w { objects = set x.oid.value x w.objects });
  update = λ x w.
      (ok tt, record w { objects = set x.oid.value (updated (w.objects x.oid.value) x) w.objects });
  exists_by_oid = λ o w. (ok (is_ok (answer not_found (w.objects o.value))), w);
}

abbrev pub found_policy : Option AccessPolicy → Result (Option AccessPolicy)
found_policy none = err (sentinel access_policy_not_found)
found_policy (some p) = ok (some p)

abbrev pub policy_repository : AccessPolicyRepository World
policy_repository = record {
  find_by_oid = λ o w. (found_policy (w.policies o.value), w);
  save = λ p w. (ok tt, record w { policies = set p.oid.value p w.policies });
  delete =
      λ o w. (ok tt, record w { policies = λ k. if text_eq o.value k then none else w.policies k });
}

abbrev pub object_storage : ObjectStorage World Text
object_storage = record {
  put_object = λ k b n w. (ok tt, record w { blobs = set k b w.blobs });
  get_object = λ k w. (answer not_found (w.blobs k), w);
}

abbrev pub cache_client : CacheClient World
cache_client = record {
  exists = λ k w. (ok (is_ok (answer redis_nil (w.cached k))), w);
  get_json = λ k w. (answer redis_nil (w.cached k), w);
  set_json = λ k c ttl w. (ok tt, record w { cached = set k c w.cached });
  delete = λ k w. (ok tt, record w { cached = λ j. if text_eq k j then none else w.cached j });
}

abbrev pub services : Services World
services = record {
  now = λ w. 1000;
  objects = object_repository;
  policies = policy_repository;
  urls = proxy_action_url_generator;
  generate_storage_key = generate_storage_key;
}

-- Objects stand under their own OID, as the constructors made them.
abbrev pub Inv : World → Type 0
Inv w = (k : Text) (x : LfsObject) → w.objects k ≡ some x → IsObject x × (x.oid.value ≡ k)
