-- ===== src/Infra/StorageKey.antt =====
-- internal/infrastructure/s3/storage_key.go. Both patterns are a class of ASCII characters between
-- `^` and `$`, repeated once or more.
pub mod Laws
use cargohold.Domain.Oid.{is_hex}
use cargohold.Exec.{Result, err, ok, then_ok}
use cargohold.Failure.{s3_invalid_hash_algo, s3_invalid_oid, sentinel}
use cargohold.Prelude.{
  Bool, [], all, drop, if◌then◌else◌, leb, length, ltb, not, take, ℕ, ◌&&◌, ◌++◌, ◌==◌, ◌||◌, ◌∷◌,
}
use cargohold.Prelude.Text.{Text, codes, contains, text_eq}

-- the class a-zA-Z0-9-
pub is_hash_algo_char : ℕ → Bool
is_hash_algo_char c =
    (leb b'a' c && leb c b'z')
    || (leb b'A' c && leb c b'Z')
    || (leb b'0' c && leb c b'9')
    || (c == b'-')

pub validate_hash_algo : Text → Result (Unit {0})
unfolding text_eq contains all is_hash_algo_char
validate_hash_algo hash_algo =
    if text_eq hash_algo []
    then err (sentinel s3_invalid_hash_algo)
    else if contains hash_algo (codes "..")
    then err (sentinel s3_invalid_hash_algo)
    else if not (all is_hash_algo_char hash_algo)
    then err (sentinel s3_invalid_hash_algo)
    else ok tt

pub validate_oid : Text → Result (Unit {0})
unfolding text_eq all is_hex
validate_oid oid =
    if text_eq oid []
    then err (sentinel s3_invalid_oid)
    else if ltb (length oid) 4
    then err (sentinel s3_invalid_oid)
    else if not (all is_hex oid)
    then err (sentinel s3_invalid_oid)
    else ok tt

-- the format objects/%s/%s/%s/%s
abbrev pub layout : Text → Text → Text
layout hash_algo oid =
    codes "objects"
    ++ b'/' ∷ (hash_algo ++ b'/' ∷ (take 2 oid ++ b'/' ∷ (take 2 (drop 2 oid) ++ b'/' ∷ oid)))

-- The slices are in range: an OID that passed has four bytes at least.
unfoldable pub generate_storage_key : Text → Text → Result Text
unfolding validate_hash_algo validate_oid
generate_storage_key oid hash_algo =
    then_ok (validate_hash_algo hash_algo)
      λ _. then_ok (validate_oid oid) λ _. ok (layout hash_algo oid)
