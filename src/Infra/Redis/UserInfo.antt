-- ===== src/Infra/Redis/UserInfo.antt =====
-- internal/infrastructure/redis/user_info_serializer.go, with the JSON methods of
-- internal/domain/provider_type.go. A nil pointer is `none`.
pub mod Laws
use cargohold.Domain.Operation.{RepositoryPermissions}
use cargohold.Domain.Repository.{RepositoryIdentifier, full_name, new_repository_identifier}
use cargohold.Domain.User.{
  GitHubUserInfo, ProviderType, UserInfo, new_provider_type, new_user_info, set_permissions,
}
use cargohold.Exec.{Result, err, map_err, ok, then_ok}
use cargohold.Failure.{nil_user_info, plain, sentinel, wrapped}
use cargohold.Infra.Redis.{Codec}
use cargohold.Prelude.{Bool, Option, [], false, if◌then◌else◌, none, some, ◌||◌}
use cargohold.Prelude.Text.{Text, text_eq}

-- userInfoDTO as it stands in JSON; the provider is `none` where the key is missing.
pub record UserInfoDto : Type 0 where
  pub sub : Text
  pub email : Text
  pub name : Text
  pub provider : Option Text
  pub repository : Text
  pub ref : Text
  pub perm_admin : Bool
  pub perm_push : Bool
  pub perm_pull : Bool
  pub perm_maintain : Bool
  pub perm_triage : Bool

-- gitHubUserInfoDTO
pub record GitHubUserInfoDto : Type 0 where
  pub sub : Text
  pub repository : Text
  pub ref : Text
  pub actor : Text

-- ProviderType.UnmarshalJSON, which a missing key does not reach
unfoldable pub unmarshal_provider : Option Text → Result ProviderType
unfolding new_provider_type
unmarshal_provider none = ok (record { value = [] })
unmarshal_provider (some s) = new_provider_type s

unfoldable pub repo_str : Option RepositoryIdentifier → Text
unfolding full_name
repo_str none = []
repo_str (some r) = full_name r

-- the flags of the permissions, which stay false for a nil pointer
unfoldable pub set_flags : Option RepositoryPermissions → UserInfoDto → UserInfoDto
set_flags none dto = dto
set_flags (some perms) dto = record dto {
  perm_admin = perms.admin;
  perm_push = perms.push;
  perm_pull = perms.pull;
  perm_maintain = perms.maintain;
  perm_triage = perms.triage;
}

unfoldable pub user_info_dto : UserInfo → UserInfoDto
unfolding repo_str set_flags
user_info_dto u = set_flags u.permissions (record {
  sub = u.sub;
  email = u.email;
  name = u.name;
  provider = some u.provider.value;
  repository = repo_str u.repository;
  ref = u.ref;
  perm_admin = false;
  perm_push = false;
  perm_pull = false;
  perm_maintain = false;
  perm_triage = false;
})

unfoldable pub parse_repo : Text → Result (Option RepositoryIdentifier)
unfolding text_eq new_repository_identifier
parse_repo s =
    if text_eq s []
    then ok none
    else then_ok (map_err (wrapped "failed to parse repository") (new_repository_identifier s))
        λ repo. ok (some repo)

unfoldable pub flags : UserInfoDto → RepositoryPermissions
flags dto = record {
  admin = dto.perm_admin;
  push = dto.perm_push;
  pull = dto.perm_pull;
  maintain = dto.perm_maintain;
  triage = dto.perm_triage;
}

-- any of the five
unfoldable pub has_flag : RepositoryPermissions → Bool
has_flag p = p.admin || p.push || p.pull || p.maintain || p.triage

module _ (codec : Codec UserInfoDto) where
  unfoldable pub serialize : Option UserInfo → Result Text
  unfolding user_info_dto
  serialize none = err (sentinel nil_user_info)
  serialize (some u) =
      map_err (wrapped "failed to marshal UserInfo") (codec.marshal (user_info_dto u))

  -- json.Unmarshal of the whole, which runs the method of the provider on the way
  unfoldable pub unmarshal_dto : Text → Result (UserInfoDto × ProviderType)
  unfolding unmarshal_provider
  unmarshal_dto bytes = map_err (wrapped "failed to unmarshal UserInfo") (
      then_ok (codec.unmarshal bytes)
        λ dto. then_ok (unmarshal_provider dto.provider) λ provider. ok (dto, provider))

  unfoldable pub deserialize : Text → Result UserInfo
  unfolding unmarshal_dto parse_repo flags has_flag new_user_info set_permissions
  deserialize bytes = then_ok (unmarshal_dto bytes) λ (dto, provider).
      then_ok (parse_repo dto.repository) λ repo.
        then_ok (new_user_info dto.sub dto.email dto.name provider repo dto.ref) λ user_info.
          ok (
            if has_flag (flags dto)
            then set_permissions (some (flags dto)) user_info
            else user_info)

module _ (codec : Codec GitHubUserInfoDto) where
  unfoldable pub serialize_git_hub : Option GitHubUserInfo → Result Text
  serialize_git_hub none = err (plain "gitHubUserInfo is nil")
  serialize_git_hub (some u) = map_err (wrapped "failed to marshal GitHubUserInfo") (
      codec.marshal
        (record { sub = u.sub; repository = u.repository; ref = u.ref; actor = u.actor }))

  unfoldable pub deserialize_git_hub : Text → Result GitHubUserInfo
  deserialize_git_hub bytes =
      then_ok (map_err (wrapped "failed to unmarshal GitHubUserInfo") (codec.unmarshal bytes))
        λ dto.
          ok (record {
            sub = dto.sub;
            repository = dto.repository;
            ref = dto.ref;
            actor = dto.actor;
          })
