-- ===== src/Domain/Redirect.antt =====
-- internal/domain/allowed_redirect_uris.go. `parse` is url.Parse, of which the scheme and the host
-- are read; `none` is a parse error.
pub mod Laws
use cargohold.Exec.{Result, err, ok, then_ok}
use cargohold.Failure.{empty_allowed_redirect_uris, invalid_redirect_uri_format, sentinel, wrapped}
use cargohold.Prelude.{
  Bool, List, Option, [], any, if◌then◌else◌, is_empty, none, some, ◌++◌, ◌||◌, ◌∷◌,
}
use cargohold.Prelude.Text.{Text, text_eq}

pub record ParsedUrl : Type 0 where
  pub scheme : Text
  pub host : Text

pub record AllowedRedirectUris : Type 0 where
  pub uris : List Text

module _ (parse : Text → Option ParsedUrl) where
  check_uri : Text → Option ParsedUrl → Result Text
  unfolding text_eq
  check_uri uri none = err (wrapped "invalid redirect URI" (sentinel invalid_redirect_uri_format))
  check_uri uri (some url) =
      if text_eq url.scheme [] || text_eq url.host []
      then err (wrapped "missing scheme or host" (sentinel invalid_redirect_uri_format))
      else ok uri

  -- the loop, with the URIs validated so far
  validate_uris : List Text → List Text → Result (List Text)
  unfolding text_eq check_uri
  validate_uris validated [] = ok validated
  validate_uris validated (uri ∷ uris) =
      if text_eq uri []
      then err (wrapped "empty URI" (sentinel invalid_redirect_uri_format))
      else then_ok (check_uri uri (parse uri)) λ u. validate_uris (validated ++ u ∷ []) uris

  unfoldable pub new_allowed_redirect_uris : List Text → Result AllowedRedirectUris
  unfolding validate_uris
  new_allowed_redirect_uris uris =
      if is_empty uris
      then err (sentinel empty_allowed_redirect_uris)
      else then_ok (validate_uris [] uris) λ validated. ok (record { uris = validated })

unfoldable pub allows_redirect : AllowedRedirectUris → Text → Bool
unfolding any text_eq
allows_redirect a uri = any (λ allowed. text_eq uri allowed) a.uris
