-- ===== src/Failure/Laws.antt =====
-- `errors.Is` looks through every wrapper, and tells the sentinels apart.
use cargohold.Failure.{
  Sentinel, access_denied, access_policy_not_found, address, authorization_denied,
  code_exchange_failed, deadline_exceeded, domain_invalid_hash_algorithm, domain_invalid_operation,
  domain_invalid_size, empty_allowed_redirect_uris, empty_sub, expired_token, exponent_out_of_range,
  github_oidc_not_configured, health_check_failed, infra_not_found, invalid_access_policy_id,
  invalid_allowed_repository_format, invalid_audience, invalid_code, invalid_hash_algorithm,
  invalid_issuer, invalid_oid, invalid_oid_format, invalid_operation, invalid_provider_type,
  invalid_redirect_uri, invalid_redirect_uri_format, invalid_repository,
  invalid_repository_identifier, invalid_repository_identifier_format, invalid_shell_type,
  invalid_size, invalid_state, invalid_storage_key, invalid_token, is_error, jwks_fetch_failed,
  key_id_not_found, missing_key_id, nil_user_info, no_objects, no_rows, not_found, not_uploaded,
  object_not_found, redis_nil, repository_access_check_failed, repository_access_denied,
  s3_invalid_hash_algo, s3_invalid_oid, sentinel, session_creation_failed, session_not_found,
  size_mismatch, state_save_failed, token_expired, user_info_creation_failed, user_info_failed,
}
use cargohold.Prelude.{
  ==_iff, List, Option, [], ap, none, refl, some, suc, true, zero, ℕ, ◌↔◌, ◌∷◌, ◌≡◌,
}

pub is_error_self : (s : Sentinel) → is_error (sentinel s) s ≡ true
unfolding is_error
is_error_self s = (==_iff _ _).1 refl

abbrev sentinels : List Sentinel
sentinels =
    access_policy_not_found ∷ invalid_repository_identifier ∷ authorization_denied
    ∷ invalid_access_policy_id ∷ empty_allowed_redirect_uris ∷ invalid_redirect_uri_format
    ∷ invalid_allowed_repository_format ∷ not_found ∷ empty_sub ∷ invalid_provider_type
    ∷ domain_invalid_hash_algorithm ∷ invalid_oid_format ∷ domain_invalid_operation
    ∷ invalid_repository_identifier_format ∷ invalid_shell_type ∷ domain_invalid_size
    ∷ invalid_storage_key ∷ invalid_operation ∷ no_objects ∷ invalid_oid ∷ invalid_size
    ∷ object_not_found ∷ size_mismatch ∷ invalid_state ∷ session_creation_failed ∷ session_not_found
    ∷ invalid_repository ∷ invalid_redirect_uri ∷ state_save_failed ∷ code_exchange_failed
    ∷ user_info_failed ∷ user_info_creation_failed ∷ repository_access_denied
    ∷ repository_access_check_failed ∷ access_denied ∷ invalid_hash_algorithm ∷ invalid_code
    ∷ github_oidc_not_configured ∷ not_uploaded ∷ health_check_failed ∷ infra_not_found
    ∷ s3_invalid_oid ∷ s3_invalid_hash_algo ∷ nil_user_info ∷ no_rows ∷ redis_nil
    ∷ deadline_exceeded ∷ invalid_token ∷ expired_token ∷ invalid_issuer ∷ invalid_audience
    ∷ jwks_fetch_failed ∷ key_id_not_found ∷ missing_key_id ∷ exponent_out_of_range ∷ token_expired
    ∷ []

abbrev at_address : List Sentinel → ℕ → Option Sentinel
at_address [] n = none
at_address (s ∷ ss) zero = some s
at_address (s ∷ ss) (suc n) = at_address ss n

at_address-address : (s : Sentinel) → at_address sentinels (address s) ≡ some s
unfolding address
at_address-address access_policy_not_found = refl
at_address-address _ = refl

pub address_injective : (s t : Sentinel) → address s ≡ address t → s ≡ t
address_injective s t h =
    cc (at_address-address s, at_address-address t, ap (at_address sentinels) h)

-- The innermost error decides, however often it is wrapped.
pub is_error-sentinel : (s t : Sentinel) → (is_error (sentinel s) t ≡ true) ↔ (s ≡ t)
unfolding is_error
is_error-sentinel s t =
    ((λ h. address_injective s t ((==_iff _ _).0 h)), λ e. (==_iff _ _).1 (ap address e))
