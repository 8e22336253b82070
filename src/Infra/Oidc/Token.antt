-- ===== src/Infra/Oidc/Token.antt =====
-- internal/infrastructure/oidc/jwt_verifier.go and github_provider.go. jwt.Parse is a parameter: it
-- reads the header, asks for the key, and checks the signature and the times.
pub mod Laws
use cargohold.Domain.User.{GitHubUserInfo}
use cargohold.Exec.{Exec, Result, err, lift, ok, on_error, pure, raise, then_ok, ◌>>=◌, ◌>>◌}
use cargohold.Failure.{
  GoError, Sentinel, expired_token, invalid_audience, invalid_issuer, invalid_token, is_error,
  missing_key_id, plain, sentinel, token_expired, wrapped,
}
use cargohold.Infra.Oidc.Jwks.{JwksServices, PublicKey, get_public_key}
use cargohold.Prelude.{Bool, List, Option, [], false, if◌then◌else◌, none, not, some, true, ◌∷◌}
use cargohold.Prelude.Text.{Text, codes, text_eq}

-- a claim as encoding/json reads it; the elements of an array that are no strings are `none`
pub data Claim : Type 0 where
  text_claim : Text → Claim
  array_claim : List (Option Text) → Claim
  other_claim : Claim

abbrev pub Claims : Type 0
Claims = Text → Option Claim

-- what the function for the key sees of a token
pub record TokenHeader : Type 0 where
  pub signed_with_rsa : Bool
  pub kid : Option Claim

-- *jwt.Token; the claims are `none` where they are no jwt.MapClaims.
pub record Token : Type 0 where
  pub valid : Bool
  pub claims : Option Claims

-- jwt.Parse, given the function for the key
abbrev pub Parse : Type 0 → Type 0
Parse W = Text → (TokenHeader → Exec W PublicKey) → Exec W Token

-- claims[name].(string)
unfoldable pub text_of_claim : Option Claim → Option Text
text_of_claim (some (text_claim s)) = some s
text_of_claim _ = none

abbrev invalid : Sentinel → GoError
invalid s = wrapped "%w: …" (sentinel s)

unfoldable pub check_issuer : Option Text → Text → Result (Unit {0})
unfolding text_eq
check_issuer none expected_issuer = err (invalid invalid_issuer)
check_issuer (some iss) expected_issuer =
    if not (text_eq iss expected_issuer) then err (invalid invalid_issuer) else ok tt

unfoldable pub validate_issuer : Claims → Text → Result (Unit {0})
unfolding check_issuer text_of_claim
validate_issuer claims expected_issuer =
    check_issuer (text_of_claim (claims (codes "iss"))) expected_issuer

-- the loop over the array
unfoldable pub has_audience : List (Option Text) → Text → Bool
unfolding text_eq
has_audience [] expected_audience = false
has_audience (none ∷ aud_array) expected_audience = has_audience aud_array expected_audience
has_audience (some aud_str ∷ aud_array) expected_audience =
    if text_eq aud_str expected_audience then true else has_audience aud_array expected_audience

unfoldable pub check_audience : Option Claim → Text → Result (Unit {0})
unfolding has_audience text_eq
check_audience none expected_audience = err (invalid invalid_audience)
check_audience (some (text_claim aud_str)) expected_audience =
    if not (text_eq aud_str expected_audience) then err (invalid invalid_audience) else ok tt
check_audience (some (array_claim aud_array)) expected_audience =
    if has_audience aud_array expected_audience then ok tt else err (invalid invalid_audience)
check_audience (some other_claim) expected_audience = err (invalid invalid_audience)

unfoldable pub validate_audience : Claims → Text → Result (Unit {0})
unfolding check_audience
validate_audience claims expected_audience = check_audience (claims (codes "aud")) expected_audience

-- the errors of jwt.Parse
unfoldable pub parse_error : GoError → GoError
unfolding is_error
parse_error e =
    if is_error e token_expired
    then sentinel expired_token
    else if is_error e missing_key_id
    then sentinel missing_key_id
    else invalid invalid_token

unfoldable pub claims_of : Token → Result Claims
claims_of token =
    if not token.valid
    then err (sentinel invalid_token)
    else (elim token.claims [ none ↦ err (invalid invalid_token) | some claims ↦ ok claims ])

-- a claim that must be a string
unfoldable pub require : Option Text → Result Text
require none = err (invalid invalid_token)
require (some s) = ok s

unfoldable pub git_hub_claims : Claims → Result GitHubUserInfo
unfolding require text_of_claim
git_hub_claims claims = then_ok (require (text_of_claim (claims (codes "sub")))) λ sub.
    then_ok (require (text_of_claim (claims (codes "repository")))) λ repository.
      then_ok (require (text_of_claim (claims (codes "ref")))) λ ref.
        then_ok (require (text_of_claim (claims (codes "actor"))))
          λ actor. ok (record { sub = sub; repository = repository; ref = ref; actor = actor })

abbrev pub git_hub_issuer : Text
git_hub_issuer = codes "https://token.actions.githubusercontent.com"

module _ {W : Type 0} (s : JwksServices W) (parse : Parse W) where
  -- the function for the key
  key_for : Text → Text → Option Text → Exec W PublicKey
  unfolding get_public_key
  key_for jwks_url provider none = raise (sentinel missing_key_id)
  key_for jwks_url provider (some key_id) =
      on_error (wrapped "公開鍵の取得に失敗しました") (get_public_key s jwks_url key_id provider)

  unfoldable pub token_key : Text → Text → TokenHeader → Exec W PublicKey
  unfolding key_for text_of_claim
  token_key jwks_url provider header =
      if not header.signed_with_rsa
      then raise (plain "予期しない署名アルゴリズムです")
      else key_for jwks_url provider (text_of_claim header.kid)

  -- VerifyJWT, with the claims of the token that it returns
  unfoldable pub verify_jwt : Text → Text → Text → Text → Text → Exec W Claims
  unfolding token_key parse_error claims_of validate_issuer validate_audience
  verify_jwt token_string jwks_url audience issuer provider = do
    token ← on_error parse_error (parse token_string (token_key jwks_url provider))
    claims ← lift (claims_of token)
    lift (validate_issuer claims issuer)
    lift (validate_audience claims audience)
    pure claims

  -- GitHubOIDCProvider.VerifyIDToken, with the fields of the provider
  unfoldable pub verify_id_token : Text → Text → Text → Exec W GitHubUserInfo
  unfolding verify_jwt git_hub_claims
  verify_id_token jwks_url audience token = do
    claims ←
        on_error (wrapped "JWT検証に失敗しました")
          (verify_jwt token jwks_url audience git_hub_issuer (codes "github"))
    lift (git_hub_claims claims)
