-- ===== src/Tests/CheckerTests.antt =====
-- The rights in a repository, with a concrete GitHub.
use cargohold.Domain.Operation.{RepositoryPermissions}
use cargohold.Exec.{err, ok, ◌>>=◌}
use cargohold.Failure.{plain}
use cargohold.Infra.Oidc.Checker.{
  GitHubApi, RepositoryResponse, ask_repository, get_repository_permissions, permissions_of,
  repo_url,
}
use cargohold.Infra.Oidc.Checker.Laws.{IsGranted, get_repository_permissions-IsGranted}
use cargohold.Prelude.{[], false, if◌then◌else◌, refl, some, suc, true, ℕ, ◌≡◌}
use cargohold.Prelude.Text.{codes, text_eq}
use cargohold.Tests.Samples.{our_repository}
use cargohold.Usecase.Oauth.{OauthTokenResult}

abbrev github_token : OauthTokenResult
github_token = record { access_token = codes "gho"; token_type = codes "bearer"; scope = [] }

abbrev may_push : RepositoryResponse
may_push = record { admin = false; maintain = false; push = true; triage = false; pull = true }

-- It knows one repository; the world counts the requests.
abbrev one_repository : GitHubApi ℕ RepositoryResponse
unfolding text_eq
one_repository = record {
  new_request = λ url. ok tt;
  do_request = λ url bearer w.
      if text_eq url (codes "https://api.github.com/repos/octo/files")
      then (ok (record { status_code = 200; body = may_push }), suc w)
      else (err (plain "unreachable"), suc w);
  decode_repository = λ body. ok body;
}

abbrev push_rights : RepositoryPermissions
push_rights = record { admin = false; push = true; pull = true; maintain = false; triage = false }

answered_rights :
    get_repository_permissions one_repository
      (codes "https://api.github.com")
      (some github_token)
      (some our_repository)
      0
    ≡ (ok push_rights, 1)
unfolding get_repository_permissions ask_repository permissions_of repo_url text_eq ◌>>=◌
answered_rights = refl

get_repository_permissions-IsGranted_example :
    IsGranted one_repository
      (codes "https://api.github.com")
      (some github_token)
      (some our_repository)
      0
      push_rights
get_repository_permissions-IsGranted_example =
    get_repository_permissions-IsGranted one_repository (codes "https://api.github.com")
      (some github_token) (some our_repository) 0 1 push_rights answered_rights
