-- ===== src/Tests/InfraTests.antt =====
-- Keys, URLs and the response's JSON at concrete inputs.
use cargohold.Domain.Oid.{new_hash_algorithm, new_storage_key}
use cargohold.Exec.{Result, ok}
use cargohold.Infra.CacheKeys.Laws.{key_of_injective, metadata}
use cargohold.Infra.Caching.{caching_repository}
use cargohold.Infra.Caching.Store.{IsCachedStore, caching_repository-IsCachedStore}
use cargohold.Infra.StorageKey.{generate_storage_key, layout}
use cargohold.Infra.StorageKey.Laws.{
  generate_storage_key-Oid, generate_storage_key_injective, split-generate_storage_key,
}
use cargohold.Infra.Urls.Laws.{generate_url_injective}
use cargohold.Prelude.{[], refl, sym, ◌∷◌, ◌≡◌}
use cargohold.Prelude.Int.{pos}
use cargohold.Prelude.Text.{Text, codes}
use cargohold.Prelude.Text.Split.{split}
use cargohold.Tests.DomainTests.{our_repository-IsIdentifier, waiting_object-IsObject}
use cargohold.Tests.Samples.{digits, sample_oid, sha256}
use cargohold.Tests.World.{Inv, cache_client, object_repository}
use cargohold.Tests.WorldLaws.{world-IsBacking, world-IsCache}
use cargohold.Usecase.Response.{BatchResponse, refused}
use cargohold.Usecase.Response.Json.{
  BatchResponseJson, batch_response_to_json, marshal_batch_response, unmarshal-marshal,
  unmarshal_batch_response,
}

abbrev sample_key : Text
sample_key = layout (codes "sha256") digits

generated : generate_storage_key digits (codes "sha256") ≡ ok sample_key
unfolding generate_storage_key
generated = refl

split-generate_storage_key_example :
    split sample_key b'/' ≡ codes "objects" ∷ codes "sha256" ∷ codes "aa" ∷ codes "aa" ∷ digits ∷ []
split-generate_storage_key_example =
    split-generate_storage_key digits (codes "sha256") sample_key generated

generate_storage_key_injective_example : (digits ≡ digits) × (codes "sha256" ≡ codes "sha256")
generate_storage_key_injective_example =
    generate_storage_key_injective digits (codes "sha256") digits (codes "sha256") sample_key
      generated generated

default_algorithm : new_hash_algorithm [] ≡ ok sha256
unfolding new_hash_algorithm
default_algorithm = refl

generate_storage_key-Oid_example :
    (key : Text) × (generate_storage_key digits (codes "sha256") ≡ ok key)
    × (new_storage_key key ≡ ok (record { value = key }))
generate_storage_key-Oid_example =
    generate_storage_key-Oid digits [] sample_oid sha256 waiting_object-IsObject.hex
      default_algorithm

key_of_injective_example : (metadata ≡ metadata) × (codes "a" ≡ codes "a")
key_of_injective_example = key_of_injective metadata metadata (codes "a") (codes "a") refl

generate_url_injective_example :
    (codes "octo" ≡ codes "octo") × (codes "files" ≡ codes "files") × (digits ≡ digits)
generate_url_injective_example =
    generate_url_injective (codes "http://lfs/") (codes "octo") (codes "files") digits
      (codes "octo") (codes "files") digits our_repository-IsIdentifier.plain_owner
      our_repository-IsIdentifier.plain_name our_repository-IsIdentifier.plain_owner
      our_repository-IsIdentifier.plain_name refl

caching_repository-IsCachedStore_example :
    IsCachedStore object_repository cache_client
      (λ w. w.cached)
      (λ w. w.objects)
      Inv
      world-IsCache
      world-IsBacking
      (caching_repository object_repository cache_client)
caching_repository-IsCachedStore_example =
    caching_repository-IsCachedStore object_repository cache_client (λ w. w.cached) (λ w. w.objects)
      Inv world-IsCache world-IsBacking

abbrev sample_response : BatchResponse
sample_response = record {
  transfer = codes "basic";
  objects = refused digits (pos 5) 404 "not found" ∷ [];
  hash_algo = codes "sha256";
}

-- encoding/json with the shape itself for its text
marshal_shape : BatchResponseJson → Result BatchResponseJson
marshal_shape j = ok j

unmarshal_shape : BatchResponseJson → Result BatchResponseJson
unmarshal_shape j = ok j

shape_read_back :
    (j b : BatchResponseJson) → Unit {0} → marshal_shape j ≡ ok b → unmarshal_shape b ≡ ok j
unfolding marshal_shape unmarshal_shape
shape_read_back j b readable h = sym h

marshalled :
    (r : BatchResponse)
    → marshal_batch_response marshal_shape unmarshal_shape r ≡ ok (batch_response_to_json r)
unfolding marshal_batch_response marshal_shape
marshalled r = refl

unmarshal-marshal_example :
    unmarshal_batch_response marshal_shape unmarshal_shape (batch_response_to_json sample_response)
    ≡ ok sample_response
unmarshal-marshal_example =
    unmarshal-marshal marshal_shape unmarshal_shape (λ j. Unit {0}) shape_read_back sample_response
      (batch_response_to_json sample_response) tt (marshalled sample_response)
