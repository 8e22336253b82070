-- ===== src/Infra/Oidc/Checker/Laws.antt =====
-- Rights in a repository come from an answer of GitHub about it.
use mathlib.Core.Path.{ap₂}
use cargohold.Domain.Operation.{RepositoryPermissions}
use cargohold.Domain.Repository.{RepositoryIdentifier}
use cargohold.Exec.{Result, err, map_err, ok}
use cargohold.Exec.Keeps.{
  bind_returned, lift_returned, map_err-eq-ok, ok_inj, on_error_returned, then_ok-eq-ok,
}
use cargohold.Failure.{plain}
use cargohold.Infra.Oidc.Checker.{
  ApiAnswer, GitHubApi, RepositoryResponse, ask_repository, check_input, check_repo, check_token,
  get_repository_permissions, new_repository_permissions, permissions_of, repo_url,
}
use cargohold.Prelude.{
  ==_iff, Bool-cases, Option, [], ap, inl, inr, none, refl, some, sym, ◌++◌, ◌==◌, ◌∙◌, ◌∷◌, ◌≡◌,
  ◌≢◌,
}
use cargohold.Prelude.Text.{Text, codes}
use cargohold.Usecase.Oauth.{OauthTokenResult}

-- GitHub answered the request for this repository, made with this token, with status 200 and these
-- permissions.
pub record IsGranted {W Body : Type 0} (api : GitHubApi W Body) (endpoint : Text)
    (token : Option OauthTokenResult) (repo : Option RepositoryIdentifier) (w : W)
    (p : RepositoryPermissions) : Type 0 where
  pub holder : OauthTokenResult
  pub given : token ≡ some holder
  pub signed_in : holder.access_token ≢ []
  pub repository : RepositoryIdentifier
  pub named : repo ≡ some repository
  pub resp : ApiAnswer Body
  pub asked :
      (api.do_request (repo_url endpoint repository) (codes "Bearer " ++ holder.access_token) w).0
      ≡ ok resp
  pub fine : resp.status_code ≡ 200
  pub response : RepositoryResponse
  pub decoded : api.decode_repository resp.body ≡ ok response
  pub granted : p ≡ record {
    admin = response.admin;
    push = response.push;
    pull = response.pull;
    maintain = response.maintain;
    triage = response.triage;
  }

module _ {W Body : Type 0} (api : GitHubApi W Body) (endpoint : Text) where
  permissions_of-eq-ok :
      (resp : ApiAnswer Body) (p : RepositoryPermissions)
      → permissions_of api endpoint resp ≡ ok p
      → (resp.status_code ≡ 200)
        × ((r : RepositoryResponse) × (api.decode_repository resp.body ≡ ok r)
            × (p ≡ record {
              admin = r.admin;
              push = r.push;
              pull = r.pull;
              maintain = r.maintain;
              triage = r.triage;
            }))
  unfolding permissions_of new_repository_permissions
  permissions_of-eq-ok resp p h = elim (Bool-cases (resp.status_code == 200)) [
    | inr wrong ↦ cc (rw wrong at h)
    | inl right ↦
        let h = rw right at h in
        let (r, got, h) = then_ok-eq-ok (map_err _ (api.decode_repository resp.body)) _ h in
        (
          (==_iff resp.status_code 200).0 right,
          (r, map_err-eq-ok _ (api.decode_repository resp.body) got, sym (ok_inj h)),
        )
  ]

  check_repo-eq-ok :
      (access_token : Text) (repo : Option RepositoryIdentifier)
      (input : Text × RepositoryIdentifier)
      → check_repo access_token repo ≡ ok input
      → (input.0 ≡ access_token) × (repo ≡ some input.1)
  unfolding check_repo
  check_repo-eq-ok access_token none input h = cc h
  check_repo-eq-ok access_token (some r) input h =
      let e = ok_inj h in
      (
        sym (ap (λ (i : Text × RepositoryIdentifier). i.0) e),
        ap (λ (i : Text × RepositoryIdentifier). some i.1) e,
      )

  check_token-eq-ok :
      (access_token : Text) (repo : Option RepositoryIdentifier)
      (input : Text × RepositoryIdentifier)
      → check_token access_token repo ≡ ok input
      → (access_token ≢ []) × ((input.0 ≡ access_token) × (repo ≡ some input.1))
  unfolding check_token
  check_token-eq-ok [] repo input h = cc h
  check_token-eq-ok (c ∷ access_token) repo input h =
      ((λ e. cc e), check_repo-eq-ok (c ∷ access_token) repo input h)

  -- Permissions are returned only as GitHub gave them: in an answer of status 200 to a request for the
  -- asked repository, made with the token, which is not empty, and each flag under its own name.
  pub get_repository_permissions-IsGranted :
      (token : Option OauthTokenResult) (repo : Option RepositoryIdentifier) (w v : W)
      (p : RepositoryPermissions)
      → get_repository_permissions api endpoint token repo w ≡ (ok p, v)
      → IsGranted api endpoint token repo w p
  unfolding get_repository_permissions check_input ask_repository
  get_repository_permissions-IsGranted none repo w v p h =
      let (input, u, checked, h) = bind_returned _ _ w v p h in
      cc (lift_returned (err (plain "token is required")) w u input checked).0
  get_repository_permissions-IsGranted (some t) repo w v p h =
      let (input, u, checked, h) = bind_returned _ _ w v p h in
      let (resp, u1, asked, h) = bind_returned _ _ u v p h in
      let (checked, here) = lift_returned _ w u input checked in
      let (signed_in, (same_token, same_repo)) =
        check_token-eq-ok t.access_token repo input checked in
      let (_, u2, made, asked) = bind_returned _ _ u u1 resp asked in
      let there = (lift_returned _ u u2 _ made).1 ∙ here in
      let got =
        ap (λ (z : Result (ApiAnswer Body) × W). z.0) (on_error_returned _ _ resp u2 u1 asked) in
      let (fine, (r, decoded, granted)) =
        permissions_of-eq-ok resp p (lift_returned _ u1 v p h).0 in
      record {
        holder = t;
        given = refl;
        signed_in = signed_in;
        repository = input.1;
        named = same_repo;
        resp = resp;
        asked =
            ap₂
              (λ (a : Text) (x : W).
                (api.do_request (repo_url endpoint input.1) (codes "Bearer " ++ a) x).0)
              (sym same_token) (sym there)
            ∙ got;
        fine = fine;
        response = r;
        decoded = decoded;
        granted = granted;
      }
