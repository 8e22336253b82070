-- ===== src/Handler/Dispatcher/Laws.antt =====
-- Whom the dispatcher lets through.
use mathlib.Core.Path.{subst}
use cargohold.Domain.Repository.{RepositoryIdentifier, equals_fold}
use cargohold.Domain.User.{UserInfo}
use cargohold.Exec.{Result, err, ok}
use cargohold.Exec.Keeps.{Result-cases}
use cargohold.Handler.Dispatcher.{
  AuthUseCase, Outcome, Request, after_session, after_token, basic_session, bearer, cookie_session,
  dispatch, extract_repository_identifier, path_refusal, proceed, proceed_unless, respond,
  try_session, validate_repository,
}
use cargohold.Prelude.{
  Bool, Bool-cases, Option, ap, drop, false, inl, inr, none, refl, some, true, ℕ, ◌∙◌, ◌≡◌, ◌⊎◌,
}
use cargohold.Prelude.Text.{Text, codes, has_prefix}

module _ (equal_fold : Text → Text → Bool) (decode : Text → Option Text) where
  -- The path names a repository, and the user has it, up to the case of letters.
  pub record IsOwn (c : Request) (user : UserInfo) : Type 0 where
    pub url_repo : RepositoryIdentifier
    pub parsed : extract_repository_identifier c ≡ ok url_repo
    pub same : equals_fold equal_fold (some url_repo) user.repository ≡ true

  proceed_unless-none :
      (o : Option ℕ) (found user : UserInfo)
      → proceed_unless equal_fold decode o found ≡ proceed user
      → (o ≡ none) × (found ≡ user)
  unfolding proceed_unless
  proceed_unless-none none found user h = (refl, cc h)
  proceed_unless-none (some n) found user h = cc h

  path_refusal-none :
      (r : Result RepositoryIdentifier) (o : Option RepositoryIdentifier)
      → path_refusal equal_fold decode r o ≡ none
      → (u : RepositoryIdentifier) × (r ≡ ok u) × (equals_fold equal_fold (some u) o ≡ true)
  unfolding path_refusal
  path_refusal-none (err e) o h = cc h
  path_refusal-none (ok u) none h = cc h
  path_refusal-none (ok u) (some q) h =
      elim (Bool-cases (equals_fold equal_fold (some u) (some q))) [
        | inr f ↦ cc (rw f at h)
        | inl t ↦ (u, refl, t)
      ]

  validate_repository-IsOwn :
      (c : Request) (found user : UserInfo)
      → proceed_unless equal_fold decode (validate_repository equal_fold decode c found) found
        ≡ proceed user
      → (found ≡ user) × IsOwn c user
  unfolding validate_repository
  validate_repository-IsOwn c found user h =
      let (open_path, same) = proceed_unless-none _ found user h in
      let (r, parsed, own) = path_refusal-none _ found.repository open_path in
      (
        same,
        record {
          url_repo = r;
          parsed = parsed;
          same =
              subst (λ (u : UserInfo). equals_fold equal_fold (some r) u.repository ≡ true) same
                own;
        },
      )

  module _ {W : Type 0} (auth : AuthUseCase W) where
    -- A session that was found for the user.
    pub record IsSession (session : Option Text) (user : UserInfo) : Type 0 where
      pub session_id : Text
      pub given : session ≡ some session_id
      pub at : W
      pub found : (auth.authenticate_session session_id at).0 ≡ ok user

    pub record IsToken (header : Text) (user : UserInfo) : Type 0 where
      pub is_bearer : has_prefix header (codes "Bearer ") ≡ true
      pub at : W
      pub found : (auth.authenticate_git_hub_oidc (drop 7 header) at).0 ≡ ok user

    -- Each way to be let through.
    abbrev pub IsAuthenticated : Request → UserInfo → Type 0
    IsAuthenticated c user =
        IsToken c.authorization user
        ⊎ ((has_prefix c.authorization (codes "Bearer ") ≡ false)
            × (IsSession (basic_session equal_fold decode c.authorization) user
                ⊎ IsSession (cookie_session equal_fold decode c.cookie) user))

    try_session-cases :
        (c : Request) (session : Option Text) (otherwise : W → Outcome × W) (w : W)
        (user : UserInfo)
        → (try_session equal_fold decode auth c session otherwise w).0 ≡ proceed user
        → (IsSession session user × IsOwn c user) ⊎ ((v : W) × ((otherwise v).0 ≡ proceed user))
    unfolding try_session after_session
    try_session-cases c none otherwise w user h = inr (w, h)
    try_session-cases c (some session_id) otherwise w user h =
        elim (Result-cases (auth.authenticate_session session_id w).0) [
          | inr (e, missing) ↦ inr ((auth.authenticate_session session_id w).1, rw missing at h)
          | inl (found, e) ↦
              let (same, own) = validate_repository-IsOwn c found user (rw e at h) in
              inl (
                record { session_id = session_id; given = refl; at = w; found = e ∙ ap ok same },
                own,
              )
        ]

    bearer-IsToken :
        (c : Request) (w : W) (user : UserInfo)
        → has_prefix c.authorization (codes "Bearer ") ≡ true
        → (bearer equal_fold decode auth c (drop 7 c.authorization) w).0 ≡ proceed user
        → IsToken c.authorization user × IsOwn c user
    unfolding bearer after_token
    bearer-IsToken c w user is h =
        elim (Result-cases (auth.authenticate_git_hub_oidc (drop 7 c.authorization) w).0) [
          | inr (e, missing) ↦ cc (rw missing at h)
          | inl (found, e) ↦
              let (same, own) = validate_repository-IsOwn c found user (rw e at h) in
              (record { is_bearer = is; at = w; found = e ∙ ap ok same }, own)
        ]

    -- The next handler is called only with a user that a Bearer token, or without one a session of a
    -- Basic header or of the cookie, was accepted for, and only on a path of the user's repository,
    -- up to the case of letters.
    pub dispatch-IsAuthenticated :
        (c : Request) (w : W) (user : UserInfo)
        → (dispatch equal_fold decode auth c w).0 ≡ proceed user
        → IsAuthenticated c user × IsOwn c user
    unfolding dispatch
    dispatch-IsAuthenticated c w user h =
        elim (Bool-cases (has_prefix c.authorization (codes "Bearer "))) [
          | inl is ↦ let (token, own) = bearer-IsToken c w user is (rw is at h) in (inl token, own)
          | inr other ↦
              let first =
                try_session-cases c (basic_session equal_fold decode c.authorization)
                  (try_session equal_fold decode auth c (cookie_session equal_fold decode c.cookie)
                    (λ v. (respond 401, v)))
                  w user (rw other at h) in
              elim first [
                | inl (given, own) ↦ (inr (other, inl given), own)
                | inr (v, h') ↦
                    elim (try_session-cases c (cookie_session equal_fold decode c.cookie)
                      (λ v. (respond 401, v)) v user h') [
                        | inl (given, own) ↦ (inr (other, inr given), own)
                        | inr (u, refusal) ↦ cc refusal
                      ]
              ]
        ]
