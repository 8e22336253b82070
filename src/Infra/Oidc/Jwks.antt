-- ===== src/Infra/Oidc/Jwks.antt =====
-- internal/infrastructure/oidc/jwks.go. HTTP, the cache, base64 and encoding/json are parameters, as
-- is `max_int`, which is math.MaxInt of the platform.
pub mod Laws
pub mod Source
use cargohold.Exec.{
  Exec, Result, attempt, err, lift, map_err, ok, on_error, pure, then_ok, ◌>>=◌, ◌>>◌,
}
use cargohold.Exec.Read.{read_limited}
use cargohold.Failure.{
  GoError, exponent_out_of_range, jwks_fetch_failed, key_id_not_found, sentinel, wrapped,
}
use cargohold.Infra.CacheKeys.{oidc_jwks_key}
use cargohold.Prelude.{
  Bool, List, Option, [], if◌then◌else◌, leb, ltb, not, ℕ, ◌&&◌, ◌*◌, ◌+◌, ◌==◌, ◌∷◌,
}
use cargohold.Prelude.Text.{Text, codes, text_eq}

pub record Jwk : Type 0 where
  pub kid : Text
  pub kty : Text
  pub use_of : Text
  pub n : Text
  pub e : Text

pub record JwkSet : Type 0 where
  pub keys : List Jwk

-- rsa.PublicKey
pub record PublicKey : Type 0 where
  pub modulus : ℕ
  pub exponent : ℕ

-- an answer of HTTP: its status, the bytes of its body, and the error that reading ends with if any
pub record HttpAnswer : Type 0 where
  pub status_code : ℕ
  pub body : Text
  pub broken : Option GoError

pub record JwksServices (W : Type 0) : Type 0 where
  pub get_json : Text → Exec W JwkSet
  pub set_json : Text → JwkSet → ℕ → Exec W (Unit {0})
  -- http.NewRequestWithContext
  pub new_request : Text → Result (Unit {0})
  pub do_request : Text → Exec W HttpAnswer
  pub unmarshal : Text → Result JwkSet
  -- base64.RawURLEncoding.DecodeString
  pub decode_string : Text → Result (List ℕ)
  pub max_int : ℕ

abbrev pub max_jwks_body_size : ℕ
max_jwks_body_size = 1048576

abbrev jwks_cache_ttl : ℕ
jwks_cache_ttl = 86400000000000

-- new(big.Int).SetBytes: big-endian
unfoldable pub set_bytes : ℕ → List ℕ → ℕ
set_bytes acc [] = acc
set_bytes acc (b ∷ bytes) = set_bytes (acc * 256 + b) bytes

module _ {W : Type 0} (s : JwksServices W) where
  open s use {get_json, set_json, new_request, do_request, unmarshal, decode_string, max_int}

  -- e.IsInt64(), and the exponent in the range of int; a big.Int of bytes is not negative.
  unfoldable pub exponent_fits : ℕ → Bool
  exponent_fits e = ltb e 9223372036854775808 && leb e max_int

  unfoldable pub parse_rsa_public_key : Jwk → Result PublicKey
  unfolding set_bytes exponent_fits
  parse_rsa_public_key jwk =
      then_ok (map_err (wrapped "modulus のデコードに失敗しました") (decode_string jwk.n)) λ n_bytes.
        then_ok (map_err (wrapped "exponent のデコードに失敗しました") (decode_string jwk.e)) λ e_bytes.
          if exponent_fits (set_bytes 0 e_bytes)
          then ok (record { modulus = set_bytes 0 n_bytes; exponent = set_bytes 0 e_bytes })
          else err (wrapped "%w: %v" (sentinel exponent_out_of_range))

  unfoldable pub find_key : List Jwk → Text → Result PublicKey
  unfolding parse_rsa_public_key text_eq
  find_key [] key_id = err (wrapped "%w: key ID '%s'" (sentinel key_id_not_found))
  find_key (jwk ∷ keys) key_id =
      if text_eq jwk.kid key_id && text_eq jwk.kty (codes "RSA")
      then parse_rsa_public_key jwk
      else find_key keys key_id

  unfoldable pub find_public_key : JwkSet → Text → Result PublicKey
  unfolding find_key
  find_public_key jwk_set key_id = find_key jwk_set.keys key_id

  -- the body of an answer, by its status
  read_answer : HttpAnswer → Result JwkSet
  unfolding read_limited
  read_answer resp =
      if not (resp.status_code == 200)
      then err (wrapped "%w: status code %d" (sentinel jwks_fetch_failed))
      else then_ok
          (map_err (wrapped "レスポンスボディの読み取りに失敗しました")
            (read_limited max_jwks_body_size resp.body resp.broken))
          λ body. map_err (wrapped "JWK Setのパースに失敗しました") (unmarshal body)

  unfoldable pub fetch_jwk_set : Text → Exec W JwkSet
  unfolding read_answer
  fetch_jwk_set jwks_url = do
    lift (map_err (wrapped "HTTPリクエストの作成に失敗しました") (new_request jwks_url))
    resp ← on_error (wrapped "HTTPリクエストに失敗しました") (do_request jwks_url)
    lift (read_answer resp)

  -- A key of the cached set is the answer; otherwise the set is fetched, and cached.
  cached_or_fetched : Text → Text → Text → Result PublicKey → Exec W PublicKey
  unfolding fetch_jwk_set find_public_key
  cached_or_fetched jwks_url key_id provider (ok key) = pure key
  cached_or_fetched jwks_url key_id provider (err e) = do
    jwk_set ← on_error (wrapped "JWKS Endpointからの取得に失敗しました") (fetch_jwk_set jwks_url)
    attempt (set_json (oidc_jwks_key provider) jwk_set jwks_cache_ttl)
    lift (find_public_key jwk_set key_id)

  unfoldable pub get_public_key : Text → Text → Text → Exec W PublicKey
  unfolding cached_or_fetched find_public_key
  get_public_key jwks_url key_id provider = do
    cached ← attempt (get_json (oidc_jwks_key provider))
    cached_or_fetched jwks_url key_id provider
        (then_ok cached λ jwk_set. find_public_key jwk_set key_id)
