-- ===== src/Usecase/Auth/Laws.antt =====
-- Whom a token of GitHub Actions lets in.
use cargohold.Domain.Repository.{
  AllowedRepository, RepositoryIdentifier, new_allowed_repository_from_string,
  new_repository_identifier,
}
use cargohold.Domain.User.{GitHubUserInfo, UserInfo, new_user_info, set_permissions, to_user_info}
use cargohold.Exec.{Result, ok}
use cargohold.Exec.Keeps.{
  Result-cases, bind_returned, lift_returned, map_err-eq-ok, ok_inj, on_error_returned,
  raise_returned, then_ok-eq-ok,
}
use cargohold.Prelude.{
  Bool, Option, ap, arith, false, inl, inr, none, refl, some, sym, true, ◌∙◌, ◌≡◌,
}
use cargohold.Prelude.Text.{Text}
use cargohold.Usecase.Auth.{
  AuthServices, RepositoryAllowlist, admit, authenticate, authenticate_info, full_permissions,
}

module _ {W : Type 0} (s : AuthServices W) (allowlist : RepositoryAllowlist W) where
  pub record IsAdmitted (token : Text) (user : UserInfo) (w : W) : Type 0 where
    pub info : GitHubUserInfo
    pub verified : (s.verify_id_token token w).0 ≡ ok (some info)
    pub repository : RepositoryIdentifier
    pub named : new_repository_identifier info.repository ≡ ok repository
    pub at : W
    pub listed : (allowlist.is_allowed (record { identifier = repository }) at).0 ≡ ok true
    pub same_repository : user.repository ≡ some repository
    pub permissions : user.permissions ≡ some full_permissions

  allowed_repository-named :
      (name : Text) (a : AllowedRepository)
      → new_allowed_repository_from_string name ≡ ok a
      → new_repository_identifier name ≡ ok a.identifier
  unfolding new_allowed_repository_from_string
  allowed_repository-named name a h = elim (Result-cases (new_repository_identifier name)) [
    | inl (r, e) ↦ e ∙ ap (λ (b : AllowedRepository). ok b.identifier) (ok_inj (rw e at h))
    | inr (x, e) ↦ cc (rw e at h)
  ]

  user-repository :
      (info : GitHubUserInfo) (u : UserInfo) (r : RepositoryIdentifier)
      → new_repository_identifier info.repository ≡ ok r
      → to_user_info info ≡ ok u
      → u.repository ≡ some r
  unfolding to_user_info new_user_info
  user-repository info u r named h = let made = rw named at h in ground (arith, made)

  admit-listed :
      (info : GitHubUserInfo) (allowed : Bool) (user : UserInfo) (r : RepositoryIdentifier)
      → new_repository_identifier info.repository ≡ ok r
      → admit s allowlist info allowed ≡ ok user
      → (allowed ≡ true) × (user.repository ≡ some r) × (user.permissions ≡ some full_permissions)
  unfolding admit set_permissions
  admit-listed info false user r named h = cc h
  admit-listed info true user r named h =
      let (u, made, e) = then_ok-eq-ok (to_user_info info) _ h in
      let same = ok_inj e in
      (
        refl,
        sym (ap (λ (x : UserInfo). x.repository) same) ∙ user-repository info u r named made,
        sym (ap (λ (x : UserInfo). x.permissions) same),
      )

  -- A token that was accepted: the provider verified it, the allowlist answered yes for the
  -- repository that it names, and the user has that repository with all rights.
  pub authenticate-IsAdmitted :
      (token : Text) (user : UserInfo) (w w' : W)
      → authenticate s allowlist token w ≡ (ok user, w')
      → IsAdmitted token user w
  unfolding authenticate authenticate_info
  authenticate-IsAdmitted token user w w' h =
      let (o, v, verified, rest) = bind_returned _ _ w w' user h in go o v verified rest
    where
      go :
          (o : Option GitHubUserInfo) (v : W)
          → s.verify_id_token token w ≡ (ok o, v)
          → authenticate_info s allowlist o v ≡ (ok user, w')
          → IsAdmitted token user w
      go none v verified rest = absurd (raise_returned _ v w' user rest)
      go (some info) v verified rest =
          let (a, w1, p1, h1) = bind_returned _ _ v w' user rest in
          let (b, w2, p2, h2) = bind_returned _ _ w1 w' user h1 in
          let named =
            allowed_repository-named info.repository a
              (map_err-eq-ok _ _ (lift_returned _ v w1 a p1).0) in
          let (answered, same, rights) =
            admit-listed info b user a.identifier named (lift_returned _ w2 w' user h2).0 in
          record {
            info = info;
            verified = ap (λ (r : Result (Option GitHubUserInfo) × W). r.0) verified;
            repository = a.identifier;
            named = named;
            at = w1;
            listed =
                ap (λ (r : Result Bool × W). r.0)
                  (on_error_returned _ (allowlist.is_allowed a) b w1 w2 p2)
                ∙ ap ok answered;
            same_repository = same;
            permissions = rights;
          }
