-- ===== src/Tests/LogMaskingTests.antt =====
-- The masking of request paths at a concrete path, over a small URL library.
use cargohold.Handler.LogMasking.{
  UrlLibrary, insert_string, is_sensitive, mask_parsed, mask_parts, mask_sensitive_params, masked,
  parts_of, sort_strings, text_leb, values_of,
}
use cargohold.Handler.LogMasking.Laws.{
  mask_sensitive_params-SameButSecrets, no_entries, same_values, secret_values,
}
use cargohold.Prelude.{List, [], any, map, refl, some, ◌++◌, ◌∷◌, ◌≡◌}
use cargohold.Prelude.Text.{Text, codes, text_eq}
use cargohold.Prelude.Text.Split.{join, split}

abbrev first_of_two : List Text → Text × Text
first_of_two [] = ([], [])
first_of_two (s ∷ []) = (s, [])
first_of_two (s ∷ t ∷ ts) = (s, t)

abbrev entry_of : Text → Text × List Text
unfolding split
entry_of s = let (key, value) = first_of_two (split s 61) in (key, value ∷ [])

-- A path and a raw query, with each key once and nothing to be escaped.
abbrev url_library : UrlLibrary (Text × Text)
unfolding split
url_library = record {
  parse = λ s. some (first_of_two (split s 63));
  query = λ (u : Text × Text). map entry_of (split u.1 38);
  with_raw_query = λ (u : Text × Text) raw. (u.0, raw);
  to_string = λ (u : Text × Text). u.0 ++ (63 ∷ u.1);
  query_escape = λ s. s;
}

abbrev session_path : Text
session_path = codes "/auth/session?session_id=abc&host=h"

abbrev other_path : Text
other_path = codes "/auth/session?session_id=xyz&host=h"

masked_session_path :
    mask_sensitive_params url_library session_path ≡ codes "/auth/session?host=h&session_id=***"
unfolding mask_sensitive_params mask_parsed masked parts_of mask_parts is_sensitive values_of
    sort_strings insert_string text_leb any text_eq join split
masked_session_path = refl

mask_sensitive_params-SameButSecrets_example :
    mask_sensitive_params url_library session_path ≡ mask_sensitive_params url_library other_path
unfolding split is_sensitive any text_eq
mask_sensitive_params-SameButSecrets_example =
    mask_sensitive_params-SameButSecrets url_library session_path other_path
      (codes "/auth/session", codes "session_id=abc&host=h")
      (codes "/auth/session", codes "session_id=xyz&host=h") (λ h. cc h) (λ h. cc h) refl refl
      (λ raw. refl) (λ h. cc h)
      (secret_values (codes "session_id") (codes "abc" ∷ []) (codes "xyz" ∷ []) _ _ refl
        (same_values (codes "host") (codes "h" ∷ []) _ _ no_entries))
