-- ===== src/Infra/Masking.antt =====
-- internal/infrastructure/logging/masking.go: what is kept out of the log. strings.ToLower is a
-- parameter. An attribute is a value of slog: a group of attributes, or a value that prints.
pub mod Laws
use cargohold.Prelude.{Bool, List, [], false, if◌then◌else◌, true, ◌∷◌}
use cargohold.Prelude.Text.{Text, codes, contains, text_eq}

mutual
  pub data Attr : Type 0 where
    text_attr : Text → Text → Attr
    group_attr : Text → Attrs → Attr

  pub data Attrs : Type 0 where
    no_attrs : Attrs
    more_attrs : Attr → Attrs → Attrs

-- slog.String(a.Key, "[REDACTED]")
abbrev pub redacted : Text
redacted = codes "[REDACTED]"

-- sm.sensitiveKeys[key]
unfoldable pub is_key : List Text → Text → Bool
unfolding text_eq
is_key [] key = false
is_key (k ∷ keys) key = if text_eq k key then true else is_key keys key

-- the loop over the keys, which stops at one that the key of the attribute contains
unfoldable pub has_key_inside : List Text → Text → Bool
unfolding contains
has_key_inside [] key = false
has_key_inside (k ∷ keys) key = if contains key k then true else has_key_inside keys key

-- the keys of a masker, and defaultSensitiveKeys
abbrev pub default_sensitive_keys : List Text
default_sensitive_keys =
    codes "token"
    ∷ codes "id_token"
    ∷ codes "idtoken"
    ∷ codes "access_token"
    ∷ codes "refresh_token"
    ∷ codes "authorization"
    ∷ codes "session_id"
    ∷ codes "sessionid"
    ∷ codes "oauth_state"
    ∷ codes "oidc_state"
    ∷ codes "password"
    ∷ codes "secret"
    ∷ codes "client_secret"
    ∷ codes "clientsecret"
    ∷ codes "secret_access_key"
    ∷ codes "secretaccesskey"
    ∷ codes "access_key_id"
    ∷ codes "accesskeyid"
    ∷ codes "api_key"
    ∷ codes "apikey"
    ∷ codes "credential"
    ∷ codes "private_key"
    ∷ codes "email"
    ∷ codes "oidc_subject"
    ∷ []

module _ (to_lower : Text → Text) (sensitive_keys : List Text) where
  mask_value : Text → Text → Attr
  unfolding is_key has_key_inside
  mask_value key text =
      if is_key sensitive_keys (to_lower key)
      then text_attr key redacted
      else if has_key_inside sensitive_keys (to_lower key)
      then text_attr key redacted
      else text_attr key text

  unfoldable mutual
    unfolding mask_value

    -- SensitiveMasker.MaskAttrs
    pub mask_attrs : Attr → Attr
    mask_attrs (text_attr key text) = mask_value key text
    mask_attrs (group_attr key attrs) = group_attr key (mask_all attrs)

    -- the loop over a group
    pub mask_all : Attrs → Attrs
    mask_all no_attrs = no_attrs
    mask_all (more_attrs a attrs) = more_attrs (mask_attrs a) (mask_all attrs)

-- MaskSensitiveAttrs, by the default masker
unfoldable pub mask_sensitive_attrs : (Text → Text) → Attr → Attr
unfolding mask_attrs
mask_sensitive_attrs to_lower a = mask_attrs to_lower default_sensitive_keys a
