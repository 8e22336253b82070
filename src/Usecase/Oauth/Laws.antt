-- ===== src/Usecase/Oauth/Laws.antt =====
-- What a session that was opened by a callback rests on, and what starting a sign-in leaves behind.
use mathlib.Core.Path.{subst}
use cargohold.Domain.Operation.{RepositoryPermissions, can_download}
use cargohold.Domain.Redirect.{AllowedRedirectUris, allows_redirect}
use cargohold.Domain.Repository.{RepositoryIdentifier, full_name, new_repository_identifier}
use cargohold.Domain.Repository.Laws.{IsIdentifier, new_repository_identifier-eq-ok_iff}
use cargohold.Domain.Shell.{OauthState, ShellType}
use cargohold.Domain.User.{ProviderType, UserInfo, new_user_info, set_permissions}
use cargohold.Exec.{Result, ok}
use cargohold.Exec.Keeps.{
  bind_returned, lift_returned, map_err-eq-ok, on_error_returned, pure_returned, raise_returned,
}
use cargohold.Prelude.{Bool-cases, Option, [], ap, arith, inl, inr, refl, some, sym, true, ◌≡◌}
use cargohold.Prelude.Text.{Text, text_eq}
use cargohold.Usecase.Oauth.{
  GitHubUserResult, OauthServices, OauthTokenResult, begin, handle_callback, oidc_state_ttl,
  open_session, redeem, session_ttl, sign_in, start_authentication,
}

module _ {W : Type 0} (s : OauthServices W) where
  -- The token was given for the code, and GitHub answered with the rights of its owner.
  pub record IsGranted (code : Text) (repository : RepositoryIdentifier)
      (permissions : RepositoryPermissions) : Type 0 where
    pub token : OauthTokenResult
    pub at : W
    pub exchanged : (s.exchange_code code at).0 ≡ ok token
    pub asked_at : W
    pub granted : (s.get_repository_permissions token repository asked_at).0 ≡ ok permissions

  pub record IsOpened (repository : RepositoryIdentifier) (permissions : RepositoryPermissions)
      (session_id : Text) (w' : W) : Type 0 where
    pub may_read : can_download permissions ≡ true
    pub user : UserInfo
    pub user_repository : user.repository ≡ some repository
    pub user_permissions : user.permissions ≡ some permissions
    pub at : W
    pub created : s.create_session user session_ttl at ≡ (ok session_id, w')

  pub record IsSignedIn (code state session_id : Text) (shell : ShellType) (w w' : W) : Type 0 where
    pub state_data : OauthState
    pub taken : (s.get_and_delete_state state w).0 ≡ ok state_data
    pub same_shell : shell ≡ state_data.shell
    pub repository : RepositoryIdentifier
    pub named : new_repository_identifier state_data.repository ≡ ok repository
    pub permissions : RepositoryPermissions
    pub granted : IsGranted code repository permissions
    pub opened : IsOpened repository permissions session_id w'

  new_user_info-repository :
      (sub email name ref : Text) (provider : ProviderType) (r : Option RepositoryIdentifier)
      (u : UserInfo)
      → new_user_info sub email name provider r ref ≡ ok u
      → u.repository ≡ r
  unfolding new_user_info
  new_user_info-repository sub email name ref provider r u h = ground arith

  open_session-IsOpened :
      (repository : RepositoryIdentifier) (github_user : GitHubUserResult)
      (permissions : RepositoryPermissions) (session_id : Text) (w w' : W)
      → open_session s repository github_user permissions w ≡ (ok session_id, w')
      → IsOpened repository permissions session_id w'
  unfolding open_session set_permissions
  open_session-IsOpened repository github_user permissions session_id w w' h =
      elim (Bool-cases (can_download permissions)) [
        | inr refusal ↦ absurd (raise_returned _ w w' session_id (rw refusal at h))
        | inl may ↦
            let (u, v, made, rest) = bind_returned _ _ w w' session_id (rw may at h) in
            let built = map_err-eq-ok _ _ (lift_returned _ w v u made).0 in
            record {
              may_read = may;
              user = set_permissions (some permissions) u;
              user_repository = new_user_info-repository _ _ _ _ _ (some repository) u built;
              user_permissions = refl;
              at = v;
              created = on_error_returned _ _ session_id v w' rest;
            }
      ]

  sign_in-IsOpened :
      (repository : RepositoryIdentifier) (redirect_uri code session_id : Text) (w w' : W)
      → sign_in s repository redirect_uri code w ≡ (ok session_id, w')
      → (p : RepositoryPermissions) × IsGranted code repository p
        × IsOpened repository p session_id w'
  unfolding sign_in
  sign_in-IsOpened repository redirect_uri code session_id w w' h =
      let (_, w1, _, h1) = bind_returned _ _ w w' session_id h in
      let (token, w2, p2, h2) = bind_returned _ _ w1 w' session_id h1 in
      let (user, w3, p3, h3) = bind_returned _ _ w2 w' session_id h2 in
      let (p, w4, p4, h4) = bind_returned _ _ w3 w' session_id h3 in
      (
        p,
        record {
          token = token;
          at = w1;
          exchanged =
              ap (λ (r : Result OauthTokenResult × W). r.0)
                (on_error_returned _ (s.exchange_code code) token w1 w2 p2);
          asked_at = w3;
          granted =
              ap (λ (r : Result RepositoryPermissions × W). r.0)
                (on_error_returned _ (s.get_repository_permissions token repository) p w3 w4 p4);
        },
        open_session-IsOpened repository user p session_id w4 w' h4,
      )

  redeemed-IsSignedIn :
      (code state session_id : Text) (shell : ShellType) (taken_state : OauthState) (w v w' : W)
      → s.get_and_delete_state state w ≡ (ok taken_state, v)
      → redeem s code taken_state v ≡ (ok (session_id, shell), w')
      → IsSignedIn code state session_id shell w w'
  unfolding redeem
  redeemed-IsSignedIn code state session_id shell taken_state w v w' taken h =
      let (r, w1, p1, h1) = bind_returned _ _ v w' (session_id, shell) h in
      let (id, w2, p2, h2) = bind_returned _ _ w1 w' (session_id, shell) h1 in
      let (same, at) = pure_returned _ _ w2 w' h2 in
      let (p, granted, opened) = sign_in-IsOpened r taken_state.redirect_uri code id w1 w2 p2 in
      record {
        state_data = taken_state;
        taken = ap (λ (r : Result OauthState × W). r.0) taken;
        same_shell = sym (ap (λ (x : Text × ShellType). x.1) same);
        repository = r;
        named = map_err-eq-ok _ _ (lift_returned _ v w1 r p1).0;
        permissions = p;
        granted = granted;
        opened =
            subst (λ i. IsOpened r p i w') (ap (λ (x : Text × ShellType). x.0) same)
              (subst (IsOpened r p id) at opened);
      }

  -- A callback that returned a session: the state was known, GitHub gave a token for the code, the
  -- token's owner may at least read the repository that the state names, and the session belongs to
  -- that repository, with exactly the rights that GitHub answered.
  pub handle_callback-IsSignedIn :
      (code state session_id : Text) (shell : ShellType) (w w' : W)
      → handle_callback s code state w ≡ (ok (session_id, shell), w')
      → IsSignedIn code state session_id shell w w'
  unfolding handle_callback
  handle_callback-IsSignedIn code state session_id shell w w' h =
      elim (Bool-cases (text_eq code [])) [
        | inl e ↦ absurd (raise_returned _ w w' (session_id, shell) (rw e at h))
        | inr full ↦ elim (Bool-cases (text_eq state [])) [
          | inl e ↦ absurd (raise_returned _ w w' (session_id, shell) (rw (full, e) at h))
          | inr named ↦
              let (taken_state, v, p, rest) =
                bind_returned _ _ w w' (session_id, shell) (rw (full, named) at h) in
              redeemed-IsSignedIn code state session_id shell taken_state w v w'
                (on_error_returned _ (s.get_and_delete_state state) taken_state w v p) rest
        ]
      ]

  pub record IsStarted (allowed : AllowedRedirectUris) (repository : RepositoryIdentifier)
      (redirect_uri : Text) (shell : ShellType) : Type 0 where
    pub listed : allows_redirect allowed redirect_uri ≡ true
    pub state : Text
    pub at : W
    pub saved :
        (s.save_state state
          (record { repository = full_name repository; redirect_uri = redirect_uri; shell = shell })
          oidc_state_ttl
          at).0
        ≡ ok tt

  begin-IsStarted :
      (allowed : AllowedRedirectUris) (repository : RepositoryIdentifier) (redirect_uri url : Text)
      (shell : ShellType) (w w' : W)
      → allows_redirect allowed redirect_uri ≡ true
      → begin s repository redirect_uri shell w ≡ (ok url, w')
      → IsStarted allowed repository redirect_uri shell
  unfolding begin
  begin-IsStarted allowed repository redirect_uri url shell w w' listed h =
      let (state, w1, _, h1) = bind_returned _ _ w w' url h in
      let (_, w2, p2, _) = bind_returned _ _ w1 w' url h1 in
      record {
        listed = listed;
        state = state;
        at = w1;
        saved = ap (λ (r : Result (Unit {0}) × W). r.0) (on_error_returned _ _ tt w1 w2 p2);
      }

  -- After a sign-in was started for a parsed repository: its redirect URI is on the list, the state
  -- store accepted a state with the full name, the redirect URI and the shell, and that name parses
  -- to the repository.
  pub start_authentication-IsStarted :
      (allowed : AllowedRedirectUris) (repository : RepositoryIdentifier) (redirect_uri url : Text)
      (shell : ShellType) (w w' : W)
      → IsIdentifier repository
      → start_authentication s allowed (some repository) redirect_uri shell w ≡ (ok url, w')
      → IsStarted allowed repository redirect_uri shell
        × (new_repository_identifier (full_name repository) ≡ ok repository)
  unfolding start_authentication
  start_authentication-IsStarted allowed repository redirect_uri url shell w w' good h =
      elim (Bool-cases (text_eq redirect_uri [])) [
        | inl e ↦ absurd (raise_returned _ w w' url (rw e at h))
        | inr full ↦ elim (Bool-cases (allows_redirect allowed redirect_uri)) [
          | inr e ↦ absurd (raise_returned _ w w' url (rw (full, e) at h))
          | inl listed ↦ (
            begin-IsStarted allowed repository redirect_uri url shell w w' listed
                (rw (full, listed) at h),
            (new_repository_identifier-eq-ok_iff (full_name repository) repository).1 (refl, good),
          )
        ]
      ]
