-- ===== src/Tests/OidcTests.antt =====
-- Keys and tokens of GitHub Actions at concrete inputs.
use cargohold.Domain.User.{GitHubUserInfo}
use cargohold.Exec.{Result, err, ok, ◌>>=◌}
use cargohold.Exec.Read.{read_limited}
use cargohold.Failure.{plain, redis_nil, sentinel}
use cargohold.Infra.CacheKeys.Laws.{key_of}
use cargohold.Infra.Oidc.Jwks.{
  Jwk, JwksServices, PublicKey, fetch_jwk_set, get_public_key, parse_rsa_public_key,
}
use cargohold.Infra.Oidc.Jwks.Laws.{IsKeyOf, parse_rsa_public_key-eq-ok_iff}
use cargohold.Infra.Oidc.Token.{
  Claims, Parse, Token, TokenHeader, array_claim, git_hub_issuer, text_claim, verify_id_token,
}
use cargohold.Infra.Oidc.Token.Laws.{IsClaimed, IsTokenVerified, verify_id_token-IsTokenVerified}
use cargohold.Prelude.{List, [], if◌then◌else◌, none, refl, some, suc, true, ℕ, ◌↔◌, ◌∷◌, ◌≡◌}
use cargohold.Prelude.Text.{Text, codes, text_eq}

abbrev jwk : Jwk
jwk = record {
  kid = codes "k1";
  kty = codes "RSA";
  use_of = codes "sig";
  n = codes "nn";
  e = codes "AQAB";
}

-- The decoder knows the two texts of the key: the exponent is 65537.
abbrev decode : Text → Result (List ℕ)
decode t =
    if text_eq t (codes "AQAB")
    then ok (1 ∷ 0 ∷ 1 ∷ [])
    else if text_eq t (codes "nn")
    then ok (200 ∷ 3 ∷ [])
    else err (plain "illegal base64 data")

abbrev jwks_services : JwksServices ℕ
jwks_services = record {
  get_json = λ k w. (err (sentinel redis_nil), w);
  set_json = λ k v ttl w. (ok tt, w);
  new_request = λ url. ok tt;
  do_request =
      λ url w. (ok (record { status_code = 200; body = codes "{}"; broken = none }), suc w);
  unmarshal = λ t. ok (record { keys = jwk ∷ [] });
  decode_string = decode;
  max_int = 2147483647;
}

abbrev public_key : PublicKey
public_key = record { modulus = 51203; exponent = 65537 }

parsed_key : parse_rsa_public_key jwks_services jwk ≡ ok public_key
unfolding parse_rsa_public_key text_eq
parsed_key = refl

parse_rsa_public_key-eq-ok_iff_example :
    (parse_rsa_public_key jwks_services jwk ≡ ok public_key) ↔ IsKeyOf jwks_services jwk public_key
parse_rsa_public_key-eq-ok_iff_example = parse_rsa_public_key-eq-ok_iff jwks_services jwk public_key

-- The key is fetched once, and found.
fetched_key :
    get_public_key jwks_services (codes "u") (codes "k1") (codes "github") 0 ≡ (ok public_key, 1)
unfolding get_public_key fetch_jwk_set read_limited parse_rsa_public_key ◌>>=◌ text_eq
fetched_key = refl

abbrev claims : Claims
claims name =
    if text_eq name (codes "iss")
    then some (text_claim git_hub_issuer)
    else if text_eq name (codes "aud")
    then some (array_claim (none ∷ some (codes "cargohold") ∷ []))
    else if text_eq name (codes "sub")
    then some (text_claim (codes "repo:octo/files"))
    else if text_eq name (codes "repository")
    then some (text_claim (codes "octo/files"))
    else if text_eq name (codes "ref")
    then some (text_claim (codes "refs/heads/main"))
    else if text_eq name (codes "actor")
    then some (text_claim (codes "octocat"))
    else none

abbrev header : TokenHeader
header = record { signed_with_rsa = true; kid = some (text_claim (codes "k1")) }

abbrev token_for : Result PublicKey × ℕ → Result Token × ℕ
token_for (ok key, w) = (ok (record { valid = true; claims = some claims }), w)
token_for (err e, w) = (err e, w)

-- A library that asks for the key of this header, and accepts the signature.
abbrev parse : Parse ℕ
parse token_string key_of w = token_for (key_of header w)

abbrev action : GitHubUserInfo
action = record {
  sub = codes "repo:octo/files";
  repository = codes "octo/files";
  ref = codes "refs/heads/main";
  actor = codes "octocat";
}

accepted :
    verify_id_token jwks_services parse (codes "u") (codes "cargohold") (codes "jwt") 0
    ≡ (ok action, 1)
unfolding verify_id_token get_public_key fetch_jwk_set read_limited parse_rsa_public_key ◌>>=◌
    text_eq
accepted = refl

verify_id_token-IsTokenVerified_example :
    (c : Claims) × IsTokenVerified jwks_services parse
      (codes "jwt")
      (codes "u")
      (codes "cargohold")
      git_hub_issuer
      (codes "github")
      0
      c
    × IsClaimed jwks_services parse c action
verify_id_token-IsTokenVerified_example =
    verify_id_token-IsTokenVerified jwks_services parse (codes "u") (codes "cargohold")
      (codes "jwt") 0 1 action accepted
