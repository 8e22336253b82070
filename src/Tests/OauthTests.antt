-- ===== src/Tests/OauthTests.antt =====
-- A sign-in from its start to the session; the world is the state that waits for its callback.
use cargohold.Domain.Operation.{RepositoryPermissions, can_download}
use cargohold.Domain.Redirect.{AllowedRedirectUris, allows_redirect}
use cargohold.Domain.Repository.{full_name, new_repository_identifier}
use cargohold.Domain.Shell.{OauthState}
use cargohold.Domain.User.{new_user_info}
use cargohold.Exec.{Result, err, ok, ◌>>=◌}
use cargohold.Failure.{redis_nil, sentinel}
use cargohold.Prelude.{Option, [], any, false, none, refl, some, true, ◌∷◌, ◌≡◌}
use cargohold.Prelude.Int.{pos}
use cargohold.Prelude.Text.{codes, text_eq}
use cargohold.Tests.DomainTests.{our_repository-IsIdentifier}
use cargohold.Tests.Samples.{our_repository}
use cargohold.Usecase.Oauth.{OauthServices, handle_callback, start_authentication}
use cargohold.Usecase.Oauth.Laws.{
  IsSignedIn, IsStarted, handle_callback-IsSignedIn, start_authentication-IsStarted,
}

abbrev pull_only : RepositoryPermissions
pull_only = record { admin = false; push = false; pull = true; maintain = false; triage = false }

abbrev take_state : Option OauthState → Result OauthState
take_state none = err (sentinel redis_nil)
take_state (some x) = ok x

abbrev pub oauth_services : OauthServices (Option OauthState)
oauth_services = record {
  set_redirect_uri = λ uri w. w;
  get_authorization_url = λ state w. codes "https://github.com/login";
  exchange_code = λ code w. (ok (record { access_token = code; token_type = []; scope = [] }), w);
  get_user_info =
      λ token w. (ok (record { id = pos 7; login = codes "octo"; name = codes "Octo" }), w);
  get_repository_permissions = λ token r w. (ok pull_only, w);
  save_state = λ state x ttl w. (ok tt, some x);
  get_and_delete_state = λ state w. (take_state w, none);
  create_session = λ user ttl w. (ok (codes "session"), w);
  new_uuid = λ w. (codes "state", w);
  format_int = λ n. codes "7";
}

abbrev pub waiting_state : OauthState
waiting_state = record {
  repository = codes "octo/files";
  redirect_uri = codes "http://a";
  shell = record { value = codes "bash" };
}

signed_in :
    handle_callback oauth_services (codes "code") (codes "state") (some waiting_state)
    ≡ (ok (codes "session", record { value = codes "bash" }), none)
unfolding handle_callback ◌>>=◌ text_eq new_repository_identifier new_user_info can_download
signed_in = refl

handle_callback-IsSignedIn_example :
    IsSignedIn oauth_services
      (codes "code")
      (codes "state")
      (codes "session")
      (record { value = codes "bash" })
      (some waiting_state)
      none
handle_callback-IsSignedIn_example =
    handle_callback-IsSignedIn oauth_services (codes "code") (codes "state") (codes "session")
      (record { value = codes "bash" }) (some waiting_state) none signed_in

abbrev allowed_uris : AllowedRedirectUris
allowed_uris = record { uris = codes "http://a" ∷ [] }

started :
    start_authentication oauth_services allowed_uris
      (some our_repository)
      (codes "http://a")
      (record { value = codes "bash" })
      none
    ≡ (ok (codes "https://github.com/login"), some waiting_state)
unfolding start_authentication full_name ◌>>=◌ text_eq allows_redirect any
started = refl

start_authentication-IsStarted_example :
    IsStarted oauth_services allowed_uris our_repository
      (codes "http://a")
      (record { value = codes "bash" })
    × (new_repository_identifier (full_name our_repository) ≡ ok our_repository)
start_authentication-IsStarted_example =
    start_authentication-IsStarted oauth_services allowed_uris our_repository (codes "http://a")
      (codes "https://github.com/login") (record { value = codes "bash" }) none (some waiting_state)
      our_repository-IsIdentifier started
