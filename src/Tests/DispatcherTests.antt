-- ===== src/Tests/DispatcherTests.antt =====
-- A request with a session cookie; the world is empty.
use cargohold.Domain.Repository.{new_repository_identifier}
use cargohold.Domain.User.{UserInfo, provider_type_git_hub}
use cargohold.Exec.{err, ok}
use cargohold.Failure.{github_oidc_not_configured, sentinel}
use cargohold.Handler.Dispatcher.{AuthUseCase, Request, dispatch, proceed}
use cargohold.Handler.Dispatcher.Laws.{IsAuthenticated, IsOwn, dispatch-IsAuthenticated}
use cargohold.Prelude.{[], none, refl, some, ◌≡◌}
use cargohold.Prelude.Text.{codes, text_eq}
use cargohold.Tests.Samples.{our_repository}

abbrev session_user : UserInfo
session_user = record {
  sub = codes "7";
  email = [];
  name = codes "Octo";
  provider = provider_type_git_hub;
  repository = some our_repository;
  ref = [];
  permissions = none;
}

abbrev session_only : AuthUseCase (Unit {0})
session_only = record {
  authenticate_session = λ session_id w. (ok session_user, w);
  authenticate_git_hub_oidc = λ token w. (err (sentinel github_oidc_not_configured), w);
}

abbrev with_cookie : Request
with_cookie = record {
  authorization = [];
  cookie = some (codes "id");
  owner = codes "octo";
  repo = codes "files";
}

let_through : (dispatch text_eq (λ s. some s) session_only with_cookie tt).0 ≡ proceed session_user
unfolding dispatch new_repository_identifier text_eq
let_through = refl

dispatch-IsAuthenticated_example :
    IsAuthenticated text_eq (λ s. some s) session_only with_cookie session_user
    × IsOwn text_eq (λ s. some s) with_cookie session_user
dispatch-IsAuthenticated_example =
    dispatch-IsAuthenticated text_eq (λ s. some s) session_only with_cookie tt session_user
      let_through
