-- ===== src/Domain/Repository.antt =====
-- internal/domain/repository_identifier.go and allowed_repository.go. A nil pointer is `none`.
pub mod Laws
use cargohold.Exec.{Result, err, ok}
use cargohold.Failure.{
  invalid_allowed_repository_format, invalid_repository_identifier_format, sentinel,
}
use cargohold.Prelude.{
  Bool, List, Option, [], false, if◌then◌else◌, none, some, true, ◌&&◌, ◌++◌, ◌||◌, ◌∷◌,
}
use cargohold.Prelude.Text.{Text, text_eq}
use cargohold.Prelude.Text.Split.{split}

pub record RepositoryIdentifier : Type 0 where
  pub owner : Text
  pub name : Text

pub from_parts : List Text → Result RepositoryIdentifier
unfolding text_eq
from_parts (owner ∷ name ∷ []) =
    if text_eq owner [] || text_eq name []
    then err (sentinel invalid_repository_identifier_format)
    else ok (record { owner = owner; name = name })
from_parts _ = err (sentinel invalid_repository_identifier_format)

unfoldable pub new_repository_identifier : Text → Result RepositoryIdentifier
unfolding from_parts split
new_repository_identifier full_name = from_parts (split full_name b'/')

unfoldable pub full_name : RepositoryIdentifier → Text
full_name r = r.owner ++ b'/' ∷ r.name

-- ri.Equals(other)
unfoldable pub equals : Option RepositoryIdentifier → Option RepositoryIdentifier → Bool
unfolding text_eq
equals none none = true
equals none (some other) = false
equals (some r) none = false
equals (some r) (some other) = text_eq r.owner other.owner && text_eq r.name other.name

-- ri.EqualsFold(other); `equal_fold` is strings.EqualFold, whose Unicode tables are not modelled.
unfoldable pub equals_fold :
    (Text → Text → Bool) → Option RepositoryIdentifier → Option RepositoryIdentifier → Bool
equals_fold equal_fold none none = true
equals_fold equal_fold none (some other) = false
equals_fold equal_fold (some r) none = false
equals_fold equal_fold (some r) (some other) =
    equal_fold r.owner other.owner && equal_fold r.name other.name

pub record AllowedRepository : Type 0 where
  pub identifier : RepositoryIdentifier

pub allowed_of : Result RepositoryIdentifier → Result AllowedRepository
allowed_of (err e) = err (sentinel invalid_allowed_repository_format)
allowed_of (ok identifier) = ok (record { identifier = identifier })

unfoldable pub new_allowed_repository : Text → Text → Result AllowedRepository
unfolding text_eq allowed_of new_repository_identifier
new_allowed_repository owner repo =
    if text_eq owner [] || text_eq repo []
    then err (sentinel invalid_allowed_repository_format)
    else allowed_of (new_repository_identifier (owner ++ b'/' ∷ repo))

unfoldable pub new_allowed_repository_from_string : Text → Result AllowedRepository
unfolding allowed_of new_repository_identifier
new_allowed_repository_from_string full_name = allowed_of (new_repository_identifier full_name)

-- ar.Equals(other)
unfoldable pub allowed_equals : Option AllowedRepository → Option AllowedRepository → Bool
unfolding equals
allowed_equals none none = true
allowed_equals none (some other) = false
allowed_equals (some a) none = false
allowed_equals (some a) (some other) = equals (some a.identifier) (some other.identifier)
