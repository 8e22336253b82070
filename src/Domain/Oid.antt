-- ===== src/Domain/Oid.antt =====
-- internal/domain/oid.go, size.go, hash_algorithm.go and storage_key.go.
-- The pattern of an OID is a class of ASCII characters between `^` and `$`, repeated 64 times.
pub mod Laws
use cargohold.Exec.{Result, err, ok}
use cargohold.Failure.{
  domain_invalid_hash_algorithm, domain_invalid_size, invalid_oid_format, invalid_storage_key,
  sentinel,
}
use cargohold.Prelude.{Bool, [], all, if◌then◌else◌, leb, length, not, ℕ, ◌&&◌, ◌==◌, ◌||◌}
use cargohold.Prelude.Int.{is_negative, ℤ}
use cargohold.Prelude.Text.{Text, codes, text_eq}

pub record Oid : Type 0 where
  pub value : Text

-- the class a-fA-F0-9
unfoldable pub is_hex : ℕ → Bool
is_hex c = (leb b'a' c && leb c b'f') || (leb b'A' c && leb c b'F') || (leb b'0' c && leb c b'9')

-- oidPattern.MatchString
unfoldable pub matches_oid_pattern : Text → Bool
unfolding is_hex all
matches_oid_pattern s = all is_hex s && (length s == 64)

unfoldable pub new_oid : Text → Result Oid
unfolding matches_oid_pattern
new_oid value =
    if not (matches_oid_pattern value)
    then err (sentinel invalid_oid_format)
    else ok (record { value = value })

pub record Size : Type 0 where
  pub value : ℤ

unfoldable pub new_size : ℤ → Result Size
new_size value =
    if is_negative value then err (sentinel domain_invalid_size) else ok (record { value = value })

pub record HashAlgorithm : Type 0 where
  pub value : Text

abbrev pub default_hash_algorithm : Text
default_hash_algorithm = codes "sha256"

-- the lookup in the map, whose one key is "sha256"
unfoldable pub allowed_hash_algorithms : Text → Bool
unfolding text_eq
allowed_hash_algorithms value = text_eq value (codes "sha256")

unfoldable pub new_hash_algorithm : Text → Result HashAlgorithm
unfolding allowed_hash_algorithms
new_hash_algorithm value =
    if text_eq value []
    then ok (record { value = default_hash_algorithm })
    else if not (allowed_hash_algorithms value)
    then err (sentinel domain_invalid_hash_algorithm)
    else ok (record { value = value })

pub record StorageKey : Type 0 where
  pub value : Text

unfoldable pub new_storage_key : Text → Result StorageKey
unfolding text_eq
new_storage_key value =
    if text_eq value [] then err (sentinel invalid_storage_key) else ok (record { value = value })
