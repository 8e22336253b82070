-- ===== src/Infra/Redis/UserInfo/Laws.antt =====
-- A user is restored from what was stored of it, but for permissions without a right, which come back
-- as none at all.
-- Users as the constructors make them.
use cargohold.Domain.Operation.{RepositoryPermissions}
use cargohold.Domain.Repository.{RepositoryIdentifier, full_name}
use cargohold.Domain.Repository.Laws.{IsIdentifier, new_repository_identifier-eq-ok_iff}
use cargohold.Domain.User.{UserInfo, new_provider_type, new_user_info, set_permissions}
use cargohold.Exec.{ok}
use cargohold.Exec.Keeps.{map_err-eq-ok}
use cargohold.Infra.Redis.{Codec}
use cargohold.Infra.Redis.Laws.{IsCodec}
use cargohold.Infra.Redis.UserInfo.{
  UserInfoDto, deserialize, flags, has_flag, parse_repo, repo_str, serialize, set_flags,
  unmarshal_dto, unmarshal_provider, user_info_dto,
}
use cargohold.Prelude.{
  Bool, Option, [], false, if◌then◌else◌, none, refl, some, true, ◌++◌, ◌∷◌, ◌≡◌, ◌≢◌,
}
use cargohold.Prelude.Text.{Text, text_eq}

pub record IsUser (u : UserInfo) : Type 0 where
  pub named : u.sub ≢ []
  pub known : new_provider_type u.provider.value ≡ ok u.provider
  pub owned : (r : RepositoryIdentifier) → u.repository ≡ some r → IsIdentifier r

abbrev pub kept : Option RepositoryPermissions → Option RepositoryPermissions
kept none = none
kept (some p) = if has_flag p then some p else none

abbrev pub restored : UserInfo → UserInfo
restored u = record u { permissions = kept u.permissions }

text_eq_nil : (s : Text) → s ≢ [] → text_eq s [] ≡ false
unfolding text_eq
text_eq_nil [] h = absurd (h refl)
text_eq_nil (a ∷ s) h = refl

full_name_filled : (owner name : Text) → text_eq (owner ++ b'/' ∷ name) [] ≡ false
unfolding text_eq
full_name_filled [] name = refl
full_name_filled (a ∷ owner) name = refl

-- The repository is read back from its name.
parse_repo-repo_str :
    (o : Option RepositoryIdentifier)
    → ((r : RepositoryIdentifier) → o ≡ some r → IsIdentifier r)
    → parse_repo (repo_str o) ≡ ok o
unfolding parse_repo repo_str full_name
parse_repo-repo_str none h = refl
parse_repo-repo_str (some r) h =
    let again = (new_repository_identifier-eq-ok_iff (full_name r) r).1 (refl, h r refl) in
    rw (full_name_filled r.owner r.name, again) refl

permitted :
    (b : Bool) (p : RepositoryPermissions) (u : UserInfo)
    → ok (
        if b
        then set_permissions (some p) (record u { permissions = none })
        else record u { permissions = none })
      ≡ ok (record u { permissions = if b then some p else none })
unfolding set_permissions
permitted true p u = refl
permitted false p u = refl

module _ (codec : Codec UserInfoDto) (Good : UserInfoDto → Type 0) (json : IsCodec codec Good) where
  restored-read :
      (u : UserInfo) (t : Text) (p : Option RepositoryPermissions)
      → IsUser u
      → codec.unmarshal t ≡ ok (user_info_dto (record u { permissions = p }))
      → deserialize codec t ≡ ok (restored (record u { permissions = p }))
  unfolding deserialize unmarshal_dto user_info_dto set_flags unmarshal_provider flags new_user_info
      set_permissions
  restored-read u t none v read =
      rw (read, v.known, parse_repo-repo_str u.repository v.owned, text_eq_nil u.sub v.named) refl
  restored-read u t (some p) v read =
      rw (read, v.known, parse_repo-repo_str u.repository v.owned, text_eq_nil u.sub v.named)
        (permitted (has_flag p) p u)

  -- For a user that the constructors made, with a name and values that JSON can hold: what was
  -- serialized is read back as the same user, with the permissions unless all of them were false.
  pub deserialize-serialize :
      (u : UserInfo) (t : Text)
      → Good (user_info_dto u)
      → IsUser u
      → serialize codec (some u) ≡ ok t
      → deserialize codec t ≡ ok (restored u)
  unfolding serialize
  deserialize-serialize u t good v h = restored-read u t u.permissions v (
      json.round_trip (user_info_dto u) t good
        (map_err-eq-ok _ (codec.marshal (user_info_dto u)) h))
