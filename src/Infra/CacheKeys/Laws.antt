-- ===== src/Infra/CacheKeys/Laws.antt =====
-- The entries of one Redis database: the kinds of key do not meet.
-- What a key is made for.
use cargohold.Infra.CacheKeys.{
  batch_upload_key, metadata_key, oidc_github_repo_key, oidc_jwks_key, oidc_state_key, session_key,
}
use cargohold.Prelude.{Option, ap, drop, if◌then◌else◌, none, refl, some, some_inj, sym, ◌∙◌, ◌≡◌}
use cargohold.Prelude.Text.{Text, codes, has_prefix}

pub data Kind : Type 0 where
  metadata session batch_upload github_repo oidc_state jwks : Kind

abbrev pub key_of : Kind → Text → Text
key_of metadata id = metadata_key id
key_of session id = session_key id
key_of batch_upload id = batch_upload_key id
key_of github_repo id = oidc_github_repo_key id
key_of oidc_state id = oidc_state_key id
key_of jwks id = oidc_jwks_key id

-- The kind is read off the seventh byte after `lfs:` and what stands before it; the rest is what
-- comes after the prefix.
read : Text → Option Kind × Text
read k =
    if has_prefix k (codes "lfs:meta:")
    then (some metadata, drop 9 k)
    else if has_prefix k (codes "lfs:session:")
    then (some session, drop 12 k)
    else if has_prefix k (codes "lfs:batch:upload:")
    then (some batch_upload, drop 17 k)
    else if has_prefix k (codes "lfs:oidc:github:repo:")
    then (some github_repo, drop 21 k)
    else if has_prefix k (codes "lfs:oidc:state:")
    then (some oidc_state, drop 15 k)
    else if has_prefix k (codes "lfs:oidc:jwks:")
    then (some jwks, drop 14 k)
    else (none, k)

read-key_of : (a : Kind) (id : Text) → read (key_of a id) ≡ (some a, id)
unfolding read has_prefix
read-key_of metadata id = refl
read-key_of session id = refl
read-key_of batch_upload id = refl
read-key_of github_repo id = refl
read-key_of oidc_state id = refl
read-key_of jwks id = refl

-- Two keys are the same only if they are of the same kind and for the same name.
pub key_of_injective : (a b : Kind) (i j : Text) → key_of a i ≡ key_of b j → (a ≡ b) × (i ≡ j)
key_of_injective a b i j e =
    let same = sym (read-key_of a i) ∙ (ap read e ∙ read-key_of b j) in
    (
      some_inj (ap (λ (p : Option Kind × Text). p.0) same),
      ap (λ (p : Option Kind × Text). p.1) same,
    )
