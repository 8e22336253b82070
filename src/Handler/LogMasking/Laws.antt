-- ===== src/Handler/LogMasking/Laws.antt =====
-- The log does not depend on the secrets of a query.
use mathlib.Core.Path.{ap₂}
use cargohold.Handler.LogMasking.{
  UrlLibrary, is_sensitive, mask_parsed, mask_parts, mask_sensitive_params, masked, parts_of,
  sort_strings, values_of,
}
use cargohold.Prelude.{
  Bool-cases, List, [], ap, inl, inr, map, refl, some, true, ◌++◌, ◌∙◌, ◌∷◌, ◌≡◌, ◌≢◌,
}
use cargohold.Prelude.Text.{Text, text_eq, text_eq_iff}
use cargohold.Prelude.Text.Split.{join}

-- The queries have the same keys, in the same order, and the same values for each key that is not
-- sensitive.
pub data SameButSecrets : List (Text × List Text) → List (Text × List Text) → Type 0 where
  no_entries : SameButSecrets [] []
  same_values :
      (key : Text) (values : List Text) (q r : List (Text × List Text))
      → SameButSecrets q r
      → SameButSecrets ((key, values) ∷ q) ((key, values) ∷ r)
  secret_values :
      (key : Text) (values values' : List Text) (q r : List (Text × List Text))
      → is_sensitive key ≡ true
      → SameButSecrets q r
      → SameButSecrets ((key, values) ∷ q) ((key, values') ∷ r)

keys_of : List (Text × List Text) → List Text
keys_of q = map (λ (e : Text × List Text). e.0) q

same_keys : (q r : List (Text × List Text)) → SameButSecrets q r → keys_of q ≡ keys_of r
unfolding keys_of
same_keys q r no_entries = refl
same_keys q r (same_values key values q' r' rest) =
    ap (λ (ks : List Text). key ∷ ks) (same_keys q' r' rest)
same_keys q r (secret_values key values values' q' r' hidden rest) =
    ap (λ (ks : List Text). key ∷ ks) (same_keys q' r' rest)

module _ {Url : Type 0} (lib : UrlLibrary Url) where
  secret_parts :
      (key : Text) (vs ws : List Text)
      → is_sensitive key ≡ true
      → mask_parts lib key vs ≡ mask_parts lib key ws
  unfolding mask_parts
  secret_parts key vs ws hidden = rw hidden refl

  same_parts :
      (key : Text) (q r : List (Text × List Text))
      → SameButSecrets q r
      → mask_parts lib key (values_of key q) ≡ mask_parts lib key (values_of key r)
  unfolding values_of
  same_parts key q r no_entries = refl
  same_parts key q r (same_values k vs q' r' rest) = elim (Bool-cases (text_eq key k)) [
    | inl e ↦ rw e refl
    | inr e ↦ rw e (same_parts key q' r' rest)
  ]
  same_parts key q r (secret_values k vs ws q' r' hidden rest) = elim (Bool-cases (text_eq key k)) [
    | inl e ↦ rw e (secret_parts key vs ws (ap is_sensitive ((text_eq_iff key k).0 e) ∙ hidden))
    | inr e ↦ rw e (same_parts key q' r' rest)
  ]

  same_parts_of :
      (keys : List Text) (q r : List (Text × List Text))
      → SameButSecrets q r
      → parts_of lib keys q ≡ parts_of lib keys r
  unfolding parts_of
  same_parts_of [] q r same = refl
  same_parts_of (key ∷ keys) q r same =
      ap₂ (λ (l m : List Text). l ++ m) (same_parts key q r same) (same_parts_of keys q r same)

  same_masked :
      (uri uri' : Text) (url url' : Url)
      → ((raw : Text) → lib.with_raw_query url raw ≡ lib.with_raw_query url' raw)
      → (q r : List (Text × List Text)) → q ≢ []
      → SameButSecrets q r
      → masked lib uri url q ≡ masked lib uri' url' r
  unfolding masked keys_of
  same_masked uri uri' url url' beside [] r some_query same = absurd (some_query refl)
  same_masked uri uri' url url' beside (e ∷ q) [] some_query same = cc (same_keys (e ∷ q) [] same)
  same_masked uri uri' url url' beside (e ∷ q) (f ∷ r) some_query same = ap lib.to_string (
      beside _
      ∙ ap (λ (ps : List Text). lib.with_raw_query url' (join ps 38))
          (same_parts_of (sort_strings (keys_of (e ∷ q))) (e ∷ q) (f ∷ r) same
            ∙ ap (λ ks. parts_of lib (sort_strings ks) (f ∷ r)) (same_keys (e ∷ q) (f ∷ r) same)))

-- For two paths that parse to the same URL but for their queries, with some parameter, the same keys
-- and the same values of each key that is not sensitive: the log shows the same text for both, so
-- that it tells nothing of a session, a code or a state.
pub mask_sensitive_params-SameButSecrets :
    {Url : Type 0} (lib : UrlLibrary Url) (uri uri' : Text) (url url' : Url)
    → uri ≢ []
    → uri' ≢ []
    → lib.parse uri ≡ some url
    → lib.parse uri' ≡ some url'
    → ((raw : Text) → lib.with_raw_query url raw ≡ lib.with_raw_query url' raw)
    → lib.query url ≢ []
    → SameButSecrets (lib.query url) (lib.query url')
    → mask_sensitive_params lib uri ≡ mask_sensitive_params lib uri'
unfolding mask_sensitive_params mask_parsed
mask_sensitive_params-SameButSecrets lib [] uri' url url' u u' p p' beside some_query same =
    absurd (u refl)
mask_sensitive_params-SameButSecrets lib (c ∷ s) [] url url' u u' p p' beside some_query same =
    absurd (u' refl)
mask_sensitive_params-SameButSecrets lib (c ∷ s) (c' ∷ s') url url' u u' p p' beside some_query
      same =
    rw (p, p')
      (same_masked lib (c ∷ s) (c' ∷ s') url url' beside (lib.query url) (lib.query url') some_query
        same)
