-- ===== src/Usecase/Authorize/Laws.antt =====
-- What a verdict says about the stored policy.
use mathlib.Core.Path.{subst}
use cargohold.Domain.Oid.{Oid}
use cargohold.Domain.Operation.{Operation, operation_upload}
use cargohold.Domain.Operation.Laws.{operation_eq_iff}
use cargohold.Domain.Policy.{AccessPolicy}
use cargohold.Domain.Repository.{RepositoryIdentifier, equals}
use cargohold.Domain.Repository.Laws.{equals_iff}
use cargohold.Exec.{Result, err, map_err, ok}
use cargohold.Exec.Keeps.{Result-cases}
use cargohold.Failure.{GoError, access_policy_not_found, is_error}
use cargohold.Ports.{AccessPolicyRepository}
use cargohold.Ports.Promises.{IsPolicyStore}
use cargohold.Prelude.{
  Bool-cases, Option, Option-cases, ap, arith, false, if◌then◌else◌, inl, inr, none, refl, some,
  some_inj, sym, true, ◌↔◌, ◌∙◌, ◌≡◌, ◌≢◌, ◌⊎◌,
}
use cargohold.Prelude.Text.{Text}
use cargohold.Usecase.Authorize.{
  AuthorizationResult, authorization_error, authorize_found, authorize_new, check_authorization,
}

-- The rule: a new object may be uploaded by anybody, an object with a policy belongs to the
-- repository that the policy names.
abbrev pub Permits :
    Operation → RepositoryIdentifier → Option AccessPolicy → AuthorizationResult → Type 0
Permits operation r found a =
    ((found ≡ none)
      × (operation ≡ operation_upload)
      × (a ≡ record { allowed = true; is_new_object = true }))
    ⊎ ((p : AccessPolicy) × (found ≡ some p)
        × (p.repository ≡ some r)
        × (a ≡ record { allowed = true; is_new_object = false }))

equals-some_iff :
    (r : RepositoryIdentifier) (o : Option RepositoryIdentifier)
    → (equals (some r) o ≡ true) ↔ (o ≡ some r)
equals-some_iff r none = unfold equals in ground arith
equals-some_iff r (some q) =
    ((λ h. ap some (sym ((equals_iff r q).0 h))), λ h. (equals_iff r q).1 (cc h))

authorize_new_iff :
    (op : Operation) (a : AuthorizationResult)
    → (authorize_new op ≡ ok a)
      ↔ ((op ≡ operation_upload) × (a ≡ record { allowed = true; is_new_object = true }))
unfolding authorize_new
authorize_new_iff op a = (
  (λ h. ground (arith, operation_eq_iff op operation_upload)),
  λ h. ground (arith, operation_eq_iff op operation_upload),
)

-- What the lookup says about the policy; `none` where it does not say.
abbrev pub policy_of : Result (Option AccessPolicy) → Option (Option AccessPolicy)
policy_of (ok p) = some p
policy_of (err e) = if is_error e access_policy_not_found then some none else none

missing_iff :
    (op : Operation) (r : RepositoryIdentifier) (a : AuthorizationResult)
    → (authorize_new op ≡ ok a) ↔ Permits op r none a
missing_iff op r a = (
  λ h. let (u, e) = (authorize_new_iff op a).0 h in inl (refl, u, e),
  elim [ inl (_, u, e) ↦ (authorize_new_iff op a).1 (u, e) | inr (p, found, _, _) ↦ cc found ],
)

owned_iff :
    (op : Operation) (r : RepositoryIdentifier) (p : AccessPolicy) (a : AuthorizationResult)
    → (authorize_found op r (ok (some p)) ≡ ok a) ↔ Permits op r (some p) a
unfolding authorize_found
owned_iff op r p a = (
  λ h. inr (p, refl, (equals-some_iff r p.repository).0 (ground arith), ground arith),
  elim [
    | inl (missing, _, _) ↦ cc missing
    | inr (q, found, owner, e) ↦
        ground (arith, (equals-some_iff r p.repository).1 (cc (found, owner)))
  ],
)

missing_error_iff :
    (op : Operation) (r : RepositoryIdentifier) (e : GoError) (a : AuthorizationResult)
    → is_error e access_policy_not_found ≡ true
    → (authorize_found op r (err e) ≡ ok a) ↔ Permits op r none a
unfolding authorize_found
missing_error_iff op r e a t = rw t (missing_iff op r a)

authorize_found_iff :
    (op : Operation) (r : RepositoryIdentifier) (answer : Result (Option AccessPolicy))
    (found : Option AccessPolicy) (a : AuthorizationResult)
    → policy_of answer ≡ some found
    → (authorize_found op r answer ≡ ok a) ↔ Permits op r found a
unfolding authorize_found
authorize_found_iff op r (err e) found a h =
    elim (Bool-cases (is_error e access_policy_not_found)) [
      | inl t ↦
          subst (λ f. (authorize_found op r (err e) ≡ ok a) ↔ Permits op r f a)
            (some_inj (rw t at h)) (missing_error_iff op r e a t)
      | inr f ↦ cc (rw f at h)
    ]
authorize_found_iff op r (ok none) found a h =
    subst (λ f. (authorize_found op r (ok none) ≡ ok a) ↔ Permits op r f a) (some_inj h)
      (missing_iff op r a)
authorize_found_iff op r (ok (some p)) found a h =
    subst (λ f. (authorize_found op r (ok (some p)) ≡ ok a) ↔ Permits op r f a) (some_inj h)
      (owned_iff op r p a)

authorize_found-answered :
    (op : Operation) (r : RepositoryIdentifier) (answer : Result (Option AccessPolicy))
    (a : AuthorizationResult)
    → authorize_found op r answer ≡ ok a
    → policy_of answer ≢ none
unfolding authorize_found
authorize_found-answered op r (err e) a h = ground arith
authorize_found-answered op r (ok p) a h = cc

-- The error that the use cases report: the two refusals are "access denied", and nothing else is.
authorization_error-ok :
    (m : Result AuthorizationResult) (a : AuthorizationResult)
    → (map_err authorization_error m ≡ ok a) ↔ (m ≡ ok a)
authorization_error-ok (ok b) a = (λ h. h, λ h. h)
authorization_error-ok (err e) a = (λ h. cc h, λ h. cc h)

module _ {W : Type 0} (policies : AccessPolicyRepository W)
    (stored : W → Text → Option AccessPolicy) (Inv : W → Type 0)
    (store : IsPolicyStore policies stored Inv) where
  policy_of-stored :
      (oid : Oid) (w : W) (found : Option AccessPolicy)
      → Inv w
      → policy_of (policies.find_by_oid oid w).0 ≡ some found
      → stored w oid.value ≡ found
  policy_of-stored oid w found v h = elim (Result-cases (policies.find_by_oid oid w).0) [
    | inl (p, e) ↦ store.find-ok oid w p v e ∙ some_inj (rw e at h)
    | inr (x, e) ↦ elim (Bool-cases (is_error x access_policy_not_found)) [
      | inl t ↦ store.find_missing oid w x v e t ∙ some_inj (rw (e, t) at h)
      | inr f ↦ cc (rw (e, f) at h)
    ]
  ]

  -- From a sound world, over policies that keep their promises: if the lookup answers,
  -- `CheckAuthorization` permits exactly what the rule permits of the stored policy.
  pub check_authorization_iff :
      (op : Operation) (r : RepositoryIdentifier) (oid : Oid) (w : W) (a : AuthorizationResult)
      → Inv w
      → policy_of (policies.find_by_oid oid w).0 ≢ none
      → ((check_authorization policies op (some r) oid w).0 ≡ ok a)
        ↔ Permits op r (stored w oid.value) a
  unfolding check_authorization
  check_authorization_iff op r oid w a v answered =
      elim (Option-cases (policy_of (policies.find_by_oid oid w).0)) [
        | inl missing ↦ absurd (answered missing)
        | inr (found, e) ↦
            let (to, back) =
              authorization_error-ok (authorize_found op r (policies.find_by_oid oid w).0) a in
            let (permits, permitted) =
              authorize_found_iff op r (policies.find_by_oid oid w).0 found a e in
            rw (policy_of-stored oid w found v e) (λ h. permits (to h), λ p. back (permitted p))
      ]

  -- What it permits is permitted, also where the lookup may fail.
  pub check_authorization-Permits :
      (op : Operation) (user_repo : Option RepositoryIdentifier) (oid : Oid) (w w' : W)
      (a : AuthorizationResult)
      → Inv w
      → check_authorization policies op user_repo oid w ≡ (ok a, w')
      → (r : RepositoryIdentifier) × (user_repo ≡ some r) × Permits op r (stored w oid.value) a
  unfolding check_authorization
  check_authorization-Permits op none oid w w' a v h =
      cc (ap (λ (x : Result AuthorizationResult × W). x.0) h)
  check_authorization-Permits op (some r) oid w w' a v h =
      let decided = ap (λ (x : Result AuthorizationResult × W). x.0) h in
      let found = (authorization_error-ok _ a).0 decided in
      let answered = authorize_found-answered op r _ a found in
      (r, refl, (check_authorization_iff op r oid w a v answered).0 decided)
