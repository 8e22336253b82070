-- ===== src/Domain/User.antt =====
-- internal/domain/provider_type.go, user_info.go and github_user_info.go.
use cargohold.Domain.Operation.{RepositoryPermissions}
use cargohold.Domain.Repository.{RepositoryIdentifier, new_repository_identifier}
use cargohold.Exec.{Result, err, ok, then_ok}
use cargohold.Failure.{empty_sub, invalid_provider_type, sentinel}
use cargohold.Prelude.{Option, [], if◌then◌else◌, none, some}
use cargohold.Prelude.Text.{Text, codes, text_eq}

pub record ProviderType : Type 0 where
  pub value : Text

abbrev pub provider_type_git_hub : ProviderType
provider_type_git_hub = record { value = codes "github" }

-- validProviderTypes has one key.
unfoldable pub new_provider_type : Text → Result ProviderType
unfolding text_eq
new_provider_type s =
    if text_eq s (codes "github")
    then ok provider_type_git_hub
    else err (sentinel invalid_provider_type)

pub record UserInfo : Type 0 where
  pub sub : Text
  pub email : Text
  pub name : Text
  pub provider : ProviderType
  pub repository : Option RepositoryIdentifier
  pub ref : Text
  pub permissions : Option RepositoryPermissions

unfoldable pub new_user_info :
    Text → Text → Text → ProviderType → Option RepositoryIdentifier → Text → Result UserInfo
unfolding text_eq
new_user_info sub email name provider repository ref =
    if text_eq sub []
    then err (sentinel empty_sub)
    else ok (record {
      sub = sub;
      email = email;
      name = name;
      provider = provider;
      repository = repository;
      ref = ref;
      permissions = none;
    })

unfoldable pub set_permissions : Option RepositoryPermissions → UserInfo → UserInfo
set_permissions permissions u = record u { permissions = permissions }

pub record GitHubUserInfo : Type 0 where
  pub sub : Text
  pub repository : Text
  pub ref : Text
  pub actor : Text

unfoldable pub to_user_info : GitHubUserInfo → Result UserInfo
unfolding new_repository_identifier new_user_info
to_user_info g =
    then_ok (new_repository_identifier g.repository)
      λ repo. new_user_info g.sub [] g.actor provider_type_git_hub (some repo) g.ref
