-- ===== src/Tests/HandlerTests.antt =====
-- The handlers, the readiness endpoint and the masking of logs at concrete inputs.
use cargohold.Domain.Oid.{new_hash_algorithm, new_oid, new_size}
use cargohold.Domain.Operation.{operation_eq}
use cargohold.Domain.Redirect.{AllowedRedirectUris, allows_redirect}
use cargohold.Domain.Repository.{equals}
use cargohold.Domain.Shell.{OauthState, parse_shell_type}
use cargohold.Domain.User.{UserInfo, provider_type_git_hub}
use cargohold.Exec.{err, ok, on_error, ◌>>=◌}
use cargohold.Failure.{deadline_exceeded, sentinel}
use cargohold.Handler.BatchApi.{BatchHttpRequest, BatchRequestDto, handle_batch}
use cargohold.Handler.BatchApi.Laws.{IsBatchServed, handle_batch-IsBatchServed}
use cargohold.Handler.Http.{Reply, answered, git_lfs_content_type}
use cargohold.Handler.Login.{LoginConfig, LoginRequest, Redirection, handle_login}
use cargohold.Handler.Login.Laws.{IsSentOn, handle_login-IsSentOn}
use cargohold.Handler.Readyz.{handle_readyz, status_ok, status_service_unavailable}
use cargohold.Handler.Readyz.Laws.{detail_for, handle_readyz-answers}
use cargohold.Infra.Health.{postgres_checker, redis_checker}
use cargohold.Infra.Masking.{
  Attr, default_sensitive_keys, group_attr, mask_attrs, mask_sensitive_attrs, more_attrs, no_attrs,
  redacted, text_attr,
}
use cargohold.Infra.Masking.Laws.{leaves, leaves-mask_attrs, redact}
use cargohold.Prelude.{
  List, Option, [], all, any, false, if◌then◌else◌, map, none, refl, some, suc, true, ℕ, ◌∷◌, ◌≡◌,
}
use cargohold.Prelude.Int.{pos}
use cargohold.Prelude.Text.{Text, codes, contains, text_eq}
use cargohold.Tests.OauthTests.{oauth_services}
use cargohold.Tests.Samples.{digits, our_repository, waiting_object}
use cargohold.Tests.World.{World, services}
use cargohold.Tests.Worlds.{world_of}
use cargohold.Usecase.Authorize.{check_authorization}
use cargohold.Usecase.Batch.{handle_batch_upload}
use cargohold.Usecase.Oauth.{start_authentication}
use cargohold.Usecase.Readiness.{HealthChecker}
use cargohold.Usecase.Readiness.Laws.{answers, passed}
use cargohold.Usecase.Request.{validate}
use cargohold.Usecase.Response.{BatchResponse}

abbrev media_type : Text → Option Text
media_type s = some s

abbrev batch_dto : BatchRequestDto
batch_dto = record {
  operation = codes "upload";
  objects = record { oid = digits; size = pos 5 } ∷ [];
  transfers = [];
  ref = none;
  hash_algo = [];
}

abbrev writer : UserInfo
writer = record {
  sub = codes "42";
  email = [];
  name = codes "octocat";
  provider = provider_type_git_hub;
  repository = some our_repository;
  ref = [];
  permissions =
      some (record { admin = false; push = true; pull = true; maintain = false; triage = false });
}

abbrev batch_post : BatchHttpRequest
batch_post = record {
  accept = git_lfs_content_type;
  content_type = git_lfs_content_type;
  owner = codes "octo";
  repo = codes "files";
  bytes = codes "{}";
  broken = none;
  user = some writer;
  tls = false;
  forwarded_proto = codes "https";
  host = codes "lfs";
  authorization = [];
}

abbrev batch_done : Reply BatchResponse × World
batch_done =
    handle_batch media_type (λ t. ok batch_dto) services batch_post (world_of waiting_object)

abbrev body_of : Reply BatchResponse → BatchResponse
body_of (answered status resp) = resp
body_of _ = record { transfer = []; objects = []; hash_algo = [] }

batch_answered :
    handle_batch media_type (λ t. ok batch_dto) services batch_post (world_of waiting_object)
    ≡ (answered 200 (body_of batch_done.0), batch_done.1)
unfolding handle_batch operation_eq handle_batch_upload ◌>>=◌ validate new_oid new_size
    new_hash_algorithm check_authorization equals
batch_answered = refl

handle_batch-IsBatchServed_example :
    IsBatchServed media_type
      (λ t. ok batch_dto)
      services
      batch_post
      200
      (body_of batch_done.0)
      (world_of waiting_object)
      batch_done.1
handle_batch-IsBatchServed_example =
    handle_batch-IsBatchServed media_type (λ t. ok batch_dto) services batch_post
      (world_of waiting_object) batch_done.1 200 (body_of batch_done.0) batch_answered

abbrev login_uris : AllowedRedirectUris
login_uris = record { uris = codes "https://lfs/auth/github/callback" ∷ [] }

abbrev login_config : LoginConfig
login_config = record { trust_proxy = true; allowed_hosts = codes "other" ∷ codes "lfs" ∷ [] }

abbrev login : LoginRequest
login = record {
  host = codes "lfs";
  repository = codes "octo/files";
  shell = codes "bash";
  forwarded_proto = codes "https";
  tls = false;
}

abbrev to_git_hub : Redirection
to_git_hub = record { location = codes "https://github.com/login"; cookie = none }

abbrev logged_in : Reply Redirection × Option OauthState
logged_in = handle_login (λ s. s) oauth_services login_uris login_config login none

sent_on :
    handle_login (λ s. s) oauth_services login_uris login_config login none
    ≡ (answered 302 to_git_hub, logged_in.1)
unfolding handle_login parse_shell_type start_authentication ◌>>=◌ allows_redirect any text_eq
sent_on = refl

handle_login-IsSentOn_example :
    Path ℕ 302 302
    × IsSentOn (λ s. s) oauth_services login_uris login_config login to_git_hub none logged_in.1
handle_login-IsSentOn_example =
    handle_login-IsSentOn (λ s. s) oauth_services login_uris login_config login 302 to_git_hub none
      logged_in.1 sent_on

-- A database that answers and a cache that does not; the world counts the checks.
abbrev checkers : List (HealthChecker ℕ)
checkers =
    postgres_checker (λ w. (ok tt, suc w))
    ∷ redis_checker (some (λ w. (err (sentinel deadline_exceeded), suc w)))
    ∷ []

handle_readyz-answers_example :
    ((handle_readyz (λ e. codes "down") checkers 0).0.0
      ≡ (if all passed (answers checkers 0) then status_ok else status_service_unavailable))
    × ((handle_readyz (λ e. codes "down") checkers 0).0.1.details
        ≡ map (detail_for (λ e. codes "down")) (answers checkers 0))
handle_readyz-answers_example = handle_readyz-answers (λ e. codes "down") checkers 0

not_ready : (handle_readyz (λ e. codes "down") checkers 0).0.0 ≡ 503
unfolding handle_readyz postgres_checker redis_checker on_error
not_ready = refl

-- A token inside a group, beside a path.
abbrev request_attrs : Attr
request_attrs = group_attr (codes "request") (
    more_attrs (text_attr (codes "path") (codes "/auth"))
      (more_attrs (text_attr (codes "x_token") (codes "abc")) no_attrs))

leaves-mask_attrs_example :
    leaves [] (mask_attrs (λ s. s) default_sensitive_keys request_attrs)
    ≡ map (redact (λ s. s) default_sensitive_keys) (leaves [] request_attrs)
leaves-mask_attrs_example = leaves-mask_attrs (λ s. s) default_sensitive_keys [] request_attrs

masked :
    mask_sensitive_attrs (λ s. s) request_attrs
    ≡ group_attr (codes "request") (
        more_attrs
          (text_attr (codes "path") (codes "/auth"))
          (more_attrs (text_attr (codes "x_token") redacted) no_attrs))
unfolding mask_sensitive_attrs text_eq contains
masked = refl
