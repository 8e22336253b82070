-- ===== src/Tests/DomainTests.antt =====
-- The domain types at concrete inputs.
use cargohold.Domain.Object.{reconstruct_lfs_object}
use cargohold.Domain.Object.Laws.{IsObject, reconstruct_lfs_object-eq-ok_iff}
use cargohold.Domain.Oid.{new_hash_algorithm, new_oid, new_size, new_storage_key}
use cargohold.Domain.Oid.Laws.{IsOid, new_oid-eq-ok_iff}
use cargohold.Domain.Operation.{RepositoryPermissions, can_download, can_upload}
use cargohold.Domain.Operation.Laws.{can_download_of_can_upload}
use cargohold.Domain.Redirect.{
  AllowedRedirectUris, ParsedUrl, allows_redirect, new_allowed_redirect_uris,
}
use cargohold.Domain.Redirect.Laws.{
  IsAbsolute, IsListed, allows_redirect_iff, new_allowed_redirect_uris-All,
}
use cargohold.Domain.Repository.{full_name, new_repository_identifier}
use cargohold.Domain.Repository.Laws.{
  IsIdentifier, new_repository_identifier-eq-ok_iff, parsed-IsIdentifier,
}
use cargohold.Domain.Shell.{ShellType, is_zero, parse_shell_type}
use cargohold.Domain.Shell.Laws.{parse_shell_type-value}
use cargohold.Exec.{ok}
use cargohold.Prelude.{
  All, Option, [], drop, false, if◌then◌else◌, none, refl, some, true, ◌↔◌, ◌∷◌, ◌≡◌, ◌≢◌, ◌⊎◌,
}
use cargohold.Prelude.Text.{Text, codes, has_prefix}
use cargohold.Tests.Samples.{
  digits, our_repository, sample_oid, sample_size, uploaded_object, waiting_object,
}

new_oid-eq-ok_iff_example : (new_oid digits ≡ ok sample_oid) ↔ ((digits ≡ digits) × IsOid digits)
new_oid-eq-ok_iff_example = new_oid-eq-ok_iff digits sample_oid

new_repository_identifier-eq-ok_iff_example :
    (new_repository_identifier (codes "octo/files") ≡ ok our_repository)
    ↔ ((full_name our_repository ≡ codes "octo/files") × IsIdentifier our_repository)
new_repository_identifier-eq-ok_iff_example =
    new_repository_identifier-eq-ok_iff (codes "octo/files") our_repository

pub our_repository-IsIdentifier : IsIdentifier our_repository
unfolding new_repository_identifier
our_repository-IsIdentifier = parsed-IsIdentifier (codes "octo/files") our_repository refl

pub waiting_object-IsObject : IsObject waiting_object
unfolding new_oid new_size new_hash_algorithm new_storage_key
waiting_object-IsObject = record { hex = refl; sized = refl; hashed = refl; keyed = refl }

pub uploaded_object-IsObject : IsObject uploaded_object
unfolding new_oid new_size new_hash_algorithm new_storage_key
uploaded_object-IsObject = record { hex = refl; sized = refl; hashed = refl; keyed = refl }

reconstruct_lfs_object-eq-ok_iff_example :
    (reconstruct_lfs_object sample_oid sample_size (codes "") (codes "key") false 10 10
      ≡ ok waiting_object)
    ↔ (((codes "" ≡ []) ⊎ (codes "" ≡ codes "sha256"))
        × (codes "key" ≢ [])
        × (waiting_object ≡ record {
          oid = sample_oid;
          size = sample_size;
          hash_algo = record { value = codes "sha256" };
          storage_key = record { value = codes "key" };
          uploaded = false;
          created_at = 10;
          updated_at = 10;
        }))
reconstruct_lfs_object-eq-ok_iff_example =
    reconstruct_lfs_object-eq-ok_iff sample_oid sample_size (codes "") (codes "key") false 10 10
      waiting_object

abbrev parse_http : Text → Option ParsedUrl
parse_http uri =
    if has_prefix uri (codes "http://")
    then some (record { scheme = codes "http"; host = drop 7 uri })
    else none

abbrev redirect_uris : AllowedRedirectUris
redirect_uris = record { uris = codes "http://a" ∷ [] }

new_allowed_redirect_uris-All_example :
    (redirect_uris.uris ≡ codes "http://a" ∷ []) × All (IsAbsolute parse_http) redirect_uris.uris
unfolding new_allowed_redirect_uris has_prefix
new_allowed_redirect_uris-All_example =
    new_allowed_redirect_uris-All parse_http (codes "http://a" ∷ []) redirect_uris refl

allows_redirect_iff_example :
    (allows_redirect redirect_uris (codes "http://b") ≡ true)
    ↔ IsListed (codes "http://b") redirect_uris.uris
allows_redirect_iff_example = allows_redirect_iff redirect_uris (codes "http://b")

abbrev sh : ShellType
sh = record { value = codes "bash" }

parse_shell_type-value_example : (is_zero sh ≡ false) × (parse_shell_type (codes "bash") ≡ ok sh)
unfolding parse_shell_type
parse_shell_type-value_example = parse_shell_type-value (codes "bash") sh refl

abbrev pusher : RepositoryPermissions
pusher = record { admin = false; push = true; pull = false; maintain = false; triage = false }

can_download_of_can_upload_example : can_download pusher ≡ true
unfolding can_upload
can_download_of_can_upload_example = can_download_of_can_upload pusher refl
