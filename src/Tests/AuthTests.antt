-- ===== src/Tests/AuthTests.antt =====
-- The allowlist behind its cache, and a token that it lets in; the world is the list and the cache.
use cargohold.Domain.Repository.{full_name, new_allowed_repository_from_string}
use cargohold.Domain.User.{
  GitHubUserInfo, UserInfo, provider_type_git_hub, set_permissions, to_user_info,
}
use cargohold.Exec.{err, ok, ◌>>=◌}
use cargohold.Exec.Keeps.{ok_inj}
use cargohold.Failure.{redis_nil, sentinel}
use cargohold.Infra.Allowlist.{AllowlistCacheClient, is_allowed}
use cargohold.Infra.Allowlist.Laws.{
  IsAllowlist, IsAllowlistCache, IsAnswered, is_allowed-IsAnswered,
}
use cargohold.Prelude.{Bool, Option, [], false, if◌then◌else◌, none, refl, some, sym, true, ◌≡◌}
use cargohold.Prelude.Text.{Text, codes, text_eq}
use cargohold.Tests.Samples.{our_repository}
use cargohold.Tests.World.{answer, set}
use cargohold.Tests.WorldLaws.{answer-ok, set-cases}
use cargohold.Usecase.Auth.{AuthServices, RepositoryAllowlist, authenticate, full_permissions}
use cargohold.Usecase.Auth.Laws.{IsAdmitted, authenticate-IsAdmitted}

abbrev Lists : Type 0
Lists = (Text → Bool) × (Text → Option Text)

abbrev name_list : RepositoryAllowlist Lists
name_list = record {
  is_allowed = λ a w. (ok (w.0 (full_name a.identifier)), w);
  add = λ a w. (ok tt, (λ n. if text_eq n (full_name a.identifier) then true else w.0 n, w.1));
  remove = λ a w. (ok tt, (λ n. if text_eq n (full_name a.identifier) then false else w.0 n, w.1));
  list = λ w. (ok [], w);
}

abbrev answer_cache : AllowlistCacheClient Lists
answer_cache = record {
  get = λ k w. (answer redis_nil (w.1 k), w);
  set = λ k v ttl w. (ok tt, (w.0, set k v w.1));
  delete = λ k w. (ok tt, (w.0, λ j. if text_eq k j then none else w.1 j));
}

name_list-IsAllowlist : IsAllowlist name_list (λ w. w.0) (λ w. w.1)
name_list-IsAllowlist = record {
  ask-allowed = λ a w n. refl;
  ask-cached = λ a w k. refl;
  ask-ok = λ a w b e. sym (ok_inj e);
}

answer_cache-IsAllowlistCache : IsAllowlistCache answer_cache (λ w. w.0) (λ w. w.1)
answer_cache-IsAllowlistCache = record {
  get-allowed = λ k w n. refl;
  get-cached = λ k w j v e. e;
  get-ok = λ k w v e. answer-ok redis_nil (w.1 k) v e;
  set-allowed = λ k v ttl w n. refl;
  set-cached = λ k v ttl w j u e. set-cases k j v u w.1 e;
}

abbrev our_lists : Lists
our_lists = ((λ n. text_eq n (codes "octo/files")), λ k. none)

is_allowed-IsAnswered_example :
    IsAnswered name_list answer_cache
      (λ w. w.0)
      (λ w. w.1)
      name_list-IsAllowlist
      answer_cache-IsAllowlistCache
      (record { identifier = our_repository })
      our_lists
      (is_allowed name_list answer_cache (record { identifier = our_repository }) our_lists)
is_allowed-IsAnswered_example =
    is_allowed-IsAnswered name_list answer_cache (λ w. w.0) (λ w. w.1) name_list-IsAllowlist
      answer_cache-IsAllowlistCache (record { identifier = our_repository }) our_lists
      (λ n v e. cc e)

abbrev runner : GitHubUserInfo
runner = record {
  sub = codes "repo:octo/files";
  repository = codes "octo/files";
  ref = codes "refs/heads/main";
  actor = codes "octo";
}

abbrev token_services : AuthServices Lists
token_services = record {
  verify_id_token = λ token w. (ok (some runner), w);
  get_session = λ session_id w. (err (sentinel redis_nil), w);
}

abbrev runner_user : UserInfo
runner_user = record {
  sub = codes "repo:octo/files";
  email = [];
  name = codes "octo";
  provider = provider_type_git_hub;
  repository = some our_repository;
  ref = codes "refs/heads/main";
  permissions = some full_permissions;
}

admitted :
    authenticate token_services name_list (codes "token") our_lists ≡ (ok runner_user, our_lists)
unfolding authenticate new_allowed_repository_from_string to_user_info set_permissions full_name
    ◌>>=◌ text_eq
admitted = refl

authenticate-IsAdmitted_example :
    IsAdmitted token_services name_list (codes "token") runner_user our_lists
authenticate-IsAdmitted_example =
    authenticate-IsAdmitted token_services name_list (codes "token") runner_user our_lists our_lists
      admitted
