-- ===== src/Tests/RedisTests.antt =====
-- Sessions and states of sign-ins, over a store in memory.
use cargohold.Domain.Shell.{OauthState}
use cargohold.Domain.User.{UserInfo, provider_type_git_hub}
use cargohold.Exec.{Result, is_ok, ok}
use cargohold.Failure.{redis_nil}
use cargohold.Infra.Redis.{Codec, Driver}
use cargohold.Infra.Redis.Session.{create_stored_session}
use cargohold.Infra.Redis.State.{OauthStateDto, oauth_state_dto, save_oauth_state, take_oauth_state}
use cargohold.Infra.Redis.UserInfo.{UserInfoDto, user_info_dto}
use cargohold.Prelude.{Option, [], false, if◌then◌else◌, none, some, true}
use cargohold.Prelude.Text.{Text, codes, text_eq}
use cargohold.Tests.Samples.{our_repository}
use cargohold.Tests.World.{answer, set}

abbrev Store : Type 0
Store = Text → Option Text

abbrev store_driver : Driver Store
store_driver = record {
  get = λ k m. (answer redis_nil (m k), m);
  set = λ k v ttl m. (ok tt, set k v m);
  del = λ k m. (ok tt, λ j. if text_eq k j then none else m j);
  exists = λ k m. (ok (if is_ok (answer redis_nil (m k)) then 1 else 0), m);
  get_del = λ k m. (answer redis_nil (m k), λ j. if text_eq k j then none else m j);
}

-- A coding of one value, which is what the tests store.
abbrev one_value : {A : Type 0} → A → Codec A
one_value a = record { marshal = λ b. ok (codes "{}"); unmarshal = λ t. ok a }

abbrev reader : UserInfo
reader = record {
  sub = codes "42";
  email = [];
  name = codes "octocat";
  provider = provider_type_git_hub;
  repository = some our_repository;
  ref = [];
  permissions =
      some (record { admin = false; push = false; pull = true; maintain = false; triage = false });
}

abbrev user_codec : Codec UserInfoDto
user_codec = one_value (user_info_dto reader)

abbrev after_creation : Result Text × Store
after_creation =
    create_stored_session store_driver user_codec (λ m. (codes "s1", m)) reader 0 (λ k. none)

abbrev sign_in_state : OauthState
sign_in_state = record {
  repository = codes "octo/files";
  redirect_uri = codes "https://lfs/auth/github/callback";
  shell = record { value = codes "zsh" };
}

abbrev state_codec : Codec OauthStateDto
state_codec = one_value (oauth_state_dto sign_in_state)

abbrev after_saving : Result (Unit {0}) × Store
after_saving =
    save_oauth_state store_driver state_codec (codes "state") sign_in_state 600 (λ k. none)

abbrev after_taking : Result OauthState × Store
after_taking = take_oauth_state store_driver state_codec (codes "state") after_saving.1
