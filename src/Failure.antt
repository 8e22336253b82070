-- ===== src/Failure.antt =====
-- Go's `error` values: internal/domain, internal/usecase and internal/infrastructure declare
-- sentinels with `errors.New`, wrap errors with `fmt.Errorf("…: %w", err)` and test them with
-- `errors.Is` and `errors.As`. An error that is formatted with `%v` leaves the chain, and
-- contributes to the text alone; of that text only the constant part is kept.
pub mod Laws
use cargohold.Prelude.{Bool, String, false, true, ℕ, ◌==◌}

-- The error variables that the modelled code compares with, by package.
pub data Sentinel : Type 0 where
  -- internal/domain
  access_policy_not_found invalid_repository_identifier authorization_denied : Sentinel
  invalid_access_policy_id empty_allowed_redirect_uris invalid_redirect_uri_format : Sentinel
  invalid_allowed_repository_format not_found empty_sub invalid_provider_type : Sentinel
  domain_invalid_hash_algorithm invalid_oid_format domain_invalid_operation : Sentinel
  invalid_repository_identifier_format invalid_shell_type domain_invalid_size : Sentinel
  invalid_storage_key : Sentinel
  -- internal/usecase
  invalid_operation no_objects invalid_oid invalid_size object_not_found size_mismatch : Sentinel
  invalid_state session_creation_failed session_not_found invalid_repository : Sentinel
  invalid_redirect_uri state_save_failed code_exchange_failed user_info_failed : Sentinel
  user_info_creation_failed repository_access_denied repository_access_check_failed : Sentinel
  access_denied invalid_hash_algorithm invalid_code github_oidc_not_configured : Sentinel
  not_uploaded health_check_failed : Sentinel
  -- internal/infrastructure
  infra_not_found s3_invalid_oid s3_invalid_hash_algo nil_user_info : Sentinel
  invalid_token expired_token invalid_issuer invalid_audience jwks_fetch_failed : Sentinel
  key_id_not_found missing_key_id exponent_out_of_range : Sentinel
  -- packages outside the repository: pgx.ErrNoRows, redis.Nil, context.DeadlineExceeded,
  -- jwt.ErrTokenExpired
  no_rows redis_nil deadline_exceeded token_expired : Sentinel

-- Each variable is a pointer of its own; the numbers stand for the addresses.
pub address : Sentinel → ℕ
address access_policy_not_found = 0
address invalid_repository_identifier = 1
address authorization_denied = 2
address invalid_access_policy_id = 3
address empty_allowed_redirect_uris = 4
address invalid_redirect_uri_format = 5
address invalid_allowed_repository_format = 6
address not_found = 7
address empty_sub = 8
address invalid_provider_type = 9
address domain_invalid_hash_algorithm = 10
address invalid_oid_format = 11
address domain_invalid_operation = 12
address invalid_repository_identifier_format = 13
address invalid_shell_type = 14
address domain_invalid_size = 15
address invalid_storage_key = 16
address invalid_operation = 17
address no_objects = 18
address invalid_oid = 19
address invalid_size = 20
address object_not_found = 21
address size_mismatch = 22
address invalid_state = 23
address session_creation_failed = 24
address session_not_found = 25
address invalid_repository = 26
address invalid_redirect_uri = 27
address state_save_failed = 28
address code_exchange_failed = 29
address user_info_failed = 30
address user_info_creation_failed = 31
address repository_access_denied = 32
address repository_access_check_failed = 33
address access_denied = 34
address invalid_hash_algorithm = 35
address invalid_code = 36
address github_oidc_not_configured = 37
address not_uploaded = 38
address health_check_failed = 39
address infra_not_found = 40
address s3_invalid_oid = 41
address s3_invalid_hash_algo = 42
address nil_user_info = 43
address no_rows = 44
address redis_nil = 45
address deadline_exceeded = 46
address invalid_token = 47
address expired_token = 48
address invalid_issuer = 49
address invalid_audience = 50
address jwks_fetch_failed = 51
address key_id_not_found = 52
address missing_key_id = 53
address exponent_out_of_range = 54
address token_expired = 55

-- s3.StorageOperation
pub data StorageOperation : Type 0 where
  put get head : StorageOperation

pub data GoError : Type 0 where
  sentinel : Sentinel → GoError
  -- fmt.Errorf with one `%w`; the text is the constant part of the format
  wrapped : String → GoError → GoError
  -- *s3.StorageError, whose Unwrap gives the inner error
  storage : StorageOperation → GoError → GoError
  -- an error made in place by `errors.New` or by `fmt.Errorf` with no `%w`
  plain : String → GoError
  -- an error of a package outside the repository that is none of the sentinels
  foreign : ℕ → GoError

-- errors.Is(err, target) for a sentinel: the method `Is` of a StorageError answers false to it.
unfoldable pub is_error : GoError → Sentinel → Bool
unfolding address
is_error (sentinel s) t = address s == address t
is_error (wrapped message e) t = is_error e t
is_error (storage op e) t = is_error e t
is_error (plain message) t = false
is_error (foreign n) t = false

-- s3.IsStorageError: errors.As for *StorageError
unfoldable pub is_storage_error : GoError → Bool
is_storage_error (sentinel s) = false
is_storage_error (wrapped message e) = is_storage_error e
is_storage_error (storage op e) = true
is_storage_error (plain message) = false
is_storage_error (foreign n) = false
