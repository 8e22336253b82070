-- ===== src/Handler/Dispatcher.antt =====
-- internal/handler/middleware/auth_dispatcher.go and internal/handler/common/repository.go. A
-- request is what the dispatcher reads of it; calling the next handler with a user is an outcome, and
-- so is a response with a status.
pub mod Laws
use mathlib.Core.Option
use cargohold.Domain.Repository.{RepositoryIdentifier, equals_fold, new_repository_identifier}
use cargohold.Domain.User.{UserInfo}
use cargohold.Exec.{Exec, Result, err, ok}
use cargohold.Prelude.{Bool, Option, [], drop, if◌then◌else◌, none, not, some, ℕ, ◌++◌, ◌==◌, ◌∷◌}
use cargohold.Prelude.Text.{Text, codes, has_prefix, text_eq}

pub record Request : Type 0 where
  pub authorization : Text
  -- the value of the session cookie, if there is one
  pub cookie : Option Text
  pub owner : Text
  pub repo : Text

pub data Outcome : Type 0 where
  proceed : UserInfo → Outcome
  respond : ℕ → Outcome

-- middleware.AuthUseCaseInterface
pub record AuthUseCase (W : Type 0) : Type 0 where
  pub authenticate_session : Text → Exec W UserInfo
  pub authenticate_git_hub_oidc : Text → Exec W UserInfo

-- common.ExtractRepositoryIdentifier
unfoldable pub extract_repository_identifier : Request → Result RepositoryIdentifier
unfolding new_repository_identifier
extract_repository_identifier c = new_repository_identifier (c.owner ++ b'/' ∷ c.repo)

-- strings.SplitN(s, ":", 2), where it gives two parts
unfoldable pub split_credentials : Text → Option (Text × Text)
split_credentials [] = none
split_credentials (a ∷ s) =
    let rest = split_credentials s in
    if a == b':' then some ([], s) else Option.map (λ (p : Text × Text). (a ∷ p.0, p.1)) rest

-- `equal_fold` is strings.EqualFold, `decode` base64.StdEncoding.DecodeString.
module _ (equal_fold : Text → Text → Bool) (decode : Text → Option Text) where
  -- the status of the refusal, if the path is not of the user's repository
  path_refusal : Result RepositoryIdentifier → Option RepositoryIdentifier → Option ℕ
  unfolding equals_fold
  path_refusal (err e) user_repo = some 400
  path_refusal (ok url_repo) none = some 403
  path_refusal (ok url_repo) (some user_repo) =
      if not (equals_fold equal_fold (some url_repo) (some user_repo)) then some 403 else none

  unfoldable pub validate_repository : Request → UserInfo → Option ℕ
  unfolding path_refusal extract_repository_identifier
  validate_repository c user_info =
      path_refusal (extract_repository_identifier c) user_info.repository

  -- c.Set and next(c), unless the path is refused
  proceed_unless : Option ℕ → UserInfo → Outcome
  proceed_unless none user_info = proceed user_info
  proceed_unless (some status) user_info = respond status

  -- the session in the credentials of a Basic header
  session_of : Option (Text × Text) → Option Text
  unfolding text_eq
  session_of none = none
  session_of (some (user, password)) =
      if text_eq user (codes "x-session") then some password else none

  unfoldable pub basic_session : Text → Option Text
  unfolding session_of split_credentials has_prefix
  basic_session header =
      if has_prefix header (codes "Basic ")
      then elim (decode (drop 6 header)) [
        | none ↦ none
        | some decoded ↦ session_of (split_credentials decoded)
      ]
      else none

  -- the cookie's value; an empty one is none
  unfoldable pub cookie_session : Option Text → Option Text
  unfolding text_eq
  cookie_session none = none
  cookie_session (some value) = if text_eq value [] then none else some value

  module _ {W : Type 0} (auth : AuthUseCase W) where
    -- A session that is not found is passed over.
    after_session : Request → (W → Outcome × W) → Result UserInfo → W → Outcome × W
    unfolding validate_repository proceed_unless
    after_session c otherwise (ok user_info) w =
        (proceed_unless (validate_repository c user_info) user_info, w)
    after_session c otherwise (err e) w = otherwise w

    try_session : Request → Option Text → (W → Outcome × W) → W → Outcome × W
    unfolding after_session
    try_session c none otherwise w = otherwise w
    try_session c (some session_id) otherwise w =
        let (found, w') = auth.authenticate_session session_id w in
        after_session c otherwise found w'

    after_token : Request → Result UserInfo → Outcome
    unfolding validate_repository proceed_unless
    after_token c (ok user_info) = proceed_unless (validate_repository c user_info) user_info
    after_token c (err e) = respond 401

    bearer : Request → Text → W → Outcome × W
    unfolding after_token
    bearer c token w =
        let (found, w') = auth.authenticate_git_hub_oidc token w in (after_token c found, w')

    -- AuthDispatcher: a Bearer header decides alone, then a Basic header, then the cookie.
    unfoldable pub dispatch : Request → W → Outcome × W
    unfolding try_session after_session bearer after_token basic_session cookie_session has_prefix
    dispatch c w =
        if has_prefix c.authorization (codes "Bearer ")
        then bearer c (drop 7 c.authorization) w
        else try_session c (basic_session c.authorization)
            (try_session c (cookie_session c.cookie) (λ v. (respond 401, v))) w
