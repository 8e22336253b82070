-- ===== src/Handler/LogMasking.antt =====
-- internal/handler/middleware/log_masking.go: what the log shows of a request path. Package net/url
-- is a parameter.
pub mod Laws
use cargohold.Prelude.{
  Bool, List, Option, [], any, false, if◌then◌else◌, ltb, map, none, some, true, ◌++◌, ◌==◌, ◌∷◌,
}
use cargohold.Prelude.Text.{Text, codes, text_eq}
use cargohold.Prelude.Text.Split.{join}

-- url.Parse, where `none` is an error, with URL.Query, the setting of URL.RawQuery, URL.String and
-- url.QueryEscape. A query is a map, its entries in any order, each key once with its values.
pub record UrlLibrary (Url : Type 0) : Type 0 where
  pub parse : Text → Option Url
  pub query : Url → List (Text × List Text)
  pub with_raw_query : Url → Text → Url
  pub to_string : Url → Text
  pub query_escape : Text → Text

-- sensitiveParams
abbrev pub sensitive_params : List Text
sensitive_params = codes "session_id" ∷ codes "code" ∷ codes "state" ∷ []

abbrev pub hidden_value : Text
hidden_value = codes "***"

unfoldable pub is_sensitive : Text → Bool
unfolding any text_eq
is_sensitive key = any (text_eq key) sensitive_params

-- the order of Go strings
unfoldable pub text_leb : Text → Text → Bool
text_leb [] t = true
text_leb (a ∷ s) [] = false
text_leb (a ∷ s) (b ∷ t) = let rest = text_leb s t in if a == b then rest else ltb a b

unfoldable pub insert_string : Text → List Text → List Text
unfolding text_leb
insert_string s [] = s ∷ []
insert_string s (t ∷ ts) =
    let rest = insert_string s ts in if text_leb s t then s ∷ (t ∷ ts) else t ∷ rest

-- sort.Strings
unfoldable pub sort_strings : List Text → List Text
unfolding insert_string
sort_strings [] = []
sort_strings (s ∷ ss) = insert_string s (sort_strings ss)

-- query[key]
unfoldable pub values_of : Text → List (Text × List Text) → List Text
unfolding text_eq
values_of key [] = []
values_of key ((k, vs) ∷ query) =
    let rest = values_of key query in if text_eq key k then vs else rest

module _ {Url : Type 0} (lib : UrlLibrary Url) where
  -- the parts of one key
  unfoldable pub mask_parts : Text → List Text → List Text
  unfolding is_sensitive
  mask_parts key values =
      if is_sensitive key
      then (lib.query_escape key ++ (61 ∷ hidden_value)) ∷ []
      else map (λ v. lib.query_escape key ++ (61 ∷ lib.query_escape v)) values

  -- the loop over the keys
  unfoldable pub parts_of : List Text → List (Text × List Text) → List Text
  unfolding mask_parts values_of
  parts_of [] query = []
  parts_of (key ∷ keys) query = mask_parts key (values_of key query) ++ parts_of keys query

  -- An empty query leaves the URI as it is.
  unfoldable pub masked : Text → Url → List (Text × List Text) → Text
  unfolding parts_of sort_strings join
  masked uri url [] = uri
  masked uri url (entry ∷ query) =
      let all_of_them = entry ∷ query in
      lib.to_string (
        lib.with_raw_query url (
          join
            (parts_of (sort_strings (map (λ (e : Text × List Text). e.0) all_of_them)) all_of_them)
            38))

  unfoldable pub mask_parsed : Text → Option Url → Text
  unfolding masked
  mask_parsed uri none = uri
  mask_parsed uri (some url) = masked uri url (lib.query url)

  unfoldable pub mask_sensitive_params : Text → Text
  unfolding mask_parsed
  mask_sensitive_params [] = []
  mask_sensitive_params (c ∷ uri) = mask_parsed (c ∷ uri) (lib.parse (c ∷ uri))
