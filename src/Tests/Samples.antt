-- ===== src/Tests/Samples.antt =====
-- Values that the tests share.
use cargohold.Domain.Object.{LfsObject}
use cargohold.Domain.Oid.{HashAlgorithm, Oid, Size}
use cargohold.Domain.Operation.{operation_upload}
use cargohold.Domain.Policy.{AccessPolicy}
use cargohold.Domain.Repository.{RepositoryIdentifier}
use cargohold.Prelude.{[], false, none, some, true, ◌∷◌}
use cargohold.Prelude.Int.{pos}
use cargohold.Prelude.Text.{Text, codes}
use cargohold.Usecase.Batch.{Caller}
use cargohold.Usecase.Request.{BatchRequest}

abbrev pub digits : Text
digits = codes "aaaaaaaaaaaaaaaaaaaaaaaaaaaaaaaaaaaaaaaaaaaaaaaaaaaaaaaaaaaaaaaa"

abbrev pub sample_oid : Oid
sample_oid = record { value = digits }

abbrev pub sample_size : Size
sample_size = record { value = pos 5 }

abbrev pub sha256 : HashAlgorithm
sha256 = record { value = codes "sha256" }

abbrev pub waiting_object : LfsObject
waiting_object = record {
  oid = sample_oid;
  size = sample_size;
  hash_algo = sha256;
  storage_key = record { value = codes "key" };
  uploaded = false;
  created_at = 10;
  updated_at = 10;
}

abbrev pub uploaded_object : LfsObject
uploaded_object = record waiting_object { uploaded = true; updated_at = 20 }

abbrev pub our_repository : RepositoryIdentifier
our_repository = record { owner = codes "octo"; name = codes "files" }

abbrev pub our_policy : AccessPolicy
our_policy = record {
  id = record { value = pos 1 };
  oid = sample_oid;
  repository = some our_repository;
  created_at = 10;
}

abbrev pub caller : Caller
caller = record {
  base_url = codes "http://lfs";
  owner = codes "octo";
  repo = codes "files";
  auth_header = [];
}

abbrev pub upload_request : BatchRequest
upload_request = record {
  operation = operation_upload;
  objects = record { oid = digits; size = pos 5 } ∷ [];
  transfers = [];
  ref = none;
  hash_algo = [];
  repository = some our_repository;
}
