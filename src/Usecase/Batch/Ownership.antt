-- ===== src/Usecase/Batch/Ownership.antt =====
-- Policies under a batch upload: an existing policy is never changed.
use mathlib.Core.Path.{subst}
use cargohold.Domain.Object.{LfsObject}
use cargohold.Domain.Oid.{Oid, Size, new_oid, new_size}
use cargohold.Domain.Oid.Laws.{new_oid-value, new_size_idem}
use cargohold.Domain.Operation.{Operation, operation_upload}
use cargohold.Domain.Policy.{AccessPolicy, new_access_policy_id}
use cargohold.Domain.Repository.{RepositoryIdentifier}
use cargohold.Exec.{Exec, Result, continue, err, map_err, ok, on_error, pure, raise, ◌>>=◌, ◌>>◌}
use cargohold.Exec.Keeps.{Keeps, Keeps-bind, Keeps-lift, Keeps-pure, Result-cases}
use cargohold.Failure.{GoError, access_denied, sentinel}
use cargohold.Ports.{Services}
use cargohold.Ports.Promises.{IsLawful}
use cargohold.Prelude.{
  Bool, Bool-cases, List, Option, [], ap, arith, if_both, if◌then◌else◌, inl, inr, none, not, refl,
  some, sym, true, ◌&&◌, ◌++◌, ◌∙◌, ◌∷◌, ◌≡◌, ◌≢◌,
}
use cargohold.Prelude.Text.{Text, text_eq, text_eq_iff}
use cargohold.Usecase.Authorize.{AuthorizationResult, check_authorization}
use cargohold.Usecase.Authorize.Laws.{check_authorization-Permits}
use cargohold.Usecase.Batch.{
  Caller, authorized, create_access_policy, each_object, handle_batch_upload, is_none, round,
  run_batch, settle_upload, upload_allowed, upload_one,
}
use cargohold.Usecase.Request.{BatchRequest, RequestObject, hash_algo_or_default}
use cargohold.Usecase.Response.{ResponseObject}
use cargohold.Usecase.Upload.{handle_upload_object}
use cargohold.Usecase.Upload.Keeps.{handle_upload_object-keeps}

world-continue :
    {W : Type 0} {A : Type 0} (r : Result (Unit {0})) (a : A) (w : W)
    → (continue r (λ _. pure a) w).1 ≡ w
unfolding pure
world-continue (ok u) a w = refl
world-continue (err e) a w = refl

-- An action that is followed by a result: the world is the one that the action left.
world-then_pure :
    {W : Type 0} {A : Type 0} (f : GoError → GoError) (m : Exec W (Unit {0})) (a : A) (w : W)
    → ((on_error f m >> pure a) w).1 ≡ (m w).1
unfolding ◌>>=◌
world-then_pure f m a w = world-continue (map_err f (m w).0) a (m w).1

cc_none : {A : Type 0} {o : Option A} {a : A} → o ≡ none → o ≡ some a → ⊥
cc_none n h = cc (sym n ∙ h)

module _ {W : Type 0} (s : Services W) (c : Caller) (stored : W → Text → Option LfsObject)
    (policy : W → Text → Option AccessPolicy) (Inv : W → Type 0)
    (lawful : IsLawful s stored policy Inv) where
  -- The world is sound, and `k` has this policy, or none.
  abbrev Has : Text → Option AccessPolicy → W → Type 0
  Has k p w = Inv w × (policy w k ≡ p)

  upload-Has :
      (k : Text) (p : Option AccessPolicy) (base_url owner repo hash_algo auth_header : Text)
      (oid : Oid) (size : Size) (w : W)
      → new_oid oid.value ≡ ok oid
      → new_size size.value ≡ ok size
      → Has k p w
      → Has k p (handle_upload_object s base_url owner repo oid size hash_algo auth_header w).1
  upload-Has k p base_url owner repo hash_algo auth_header oid size w hex sized h =
      handle_upload_object-keeps s (Has k p)
        (λ o v g. (lawful.objects.find-Inv o v g.0, lawful.find_object-policy o v k g.0 ∙ g.1))
        (λ x v good g.
          (lawful.objects.save-Inv x v good g.0, lawful.save_object-policy x v k g.0 ∙ g.1))
        oid size hex sized base_url owner repo hash_algo auth_header w h

  check-Has :
      (k : Text) (p : Option AccessPolicy) (op : Operation) (r : Option RepositoryIdentifier)
      (oid : Oid) (w : W)
      → Has k p w
      → Has k p (check_authorization s.policies op r oid w).1
  unfolding check_authorization raise
  check-Has k p op none oid w h = h
  check-Has k p op (some r) oid w h =
      (lawful.policies.find-Inv oid w h.0, lawful.policies.find-stored oid w k h.0 ∙ h.1)

  -- Saving a policy under an OID leaves every other one alone.
  create-Has :
      (k : Text) (p : Option AccessPolicy) (oid : Oid) (r : Option RepositoryIdentifier) (w : W)
      → oid.value ≢ k
      → Has k p w
      → Has k p (create_access_policy s c oid r w).1
  unfolding create_access_policy new_access_policy_id ◌>>=◌
  create-Has k p oid r w other h =
      (lawful.policies.save-Inv _ w h.0, lawful.policies.save-stored _ w k h.0 other ∙ h.1)

  settle-Has :
      (k : Text) (p : AccessPolicy) (is_new : Bool) (oid : Oid) (r : Option RepositoryIdentifier)
      (a : ResponseObject) (w : W)
      → (is_new ≡ true → policy w oid.value ≡ none)
      → Has k (some p) w
      → Has k (some p) (settle_upload s c is_new oid r a w).1
  unfolding settle_upload pure
  settle-Has k p is_new oid r a w fresh h = elim (Bool-cases (is_new && is_none a.object_error)) [
    | inr f ↦ rw f h
    | inl t ↦ rw t (
        subst (Has k (some p)) (sym (world-then_pure _ _ a w))
          (elim (Bool-cases (text_eq oid.value k)) [
            | inr differs ↦
                create-Has k (some p) oid r w (λ e. cc (differs, (text_eq_iff oid.value k).1 e)) h
            | inl same ↦ absurd (
                cc_none (fresh (ground arith))
                  (subst (λ j. policy w j ≡ some p) (sym ((text_eq_iff oid.value k).0 same)) h.1))
          ]))
  ]

  upload_allowed-Has :
      (k : Text) (p : AccessPolicy) (r : Option RepositoryIdentifier) (hash_algo : Text)
      (auth : AuthorizationResult) (oid : Oid) (size : Size) (w : W)
      → new_oid oid.value ≡ ok oid
      → new_size size.value ≡ ok size
      → (auth.is_new_object ≡ true → policy w oid.value ≡ none)
      → Has k (some p) w
      → Has k (some p) (upload_allowed s c r hash_algo auth oid size w).1
  unfolding upload_allowed ◌>>=◌
  upload_allowed-Has k p r hash_algo auth oid size w hex sized fresh h =
      settle-Has k p auth.is_new_object oid r _ _
        (λ t.
          (upload-Has oid.value none c.base_url c.owner c.repo hash_algo c.auth_header oid size w
            hex sized (h.0, fresh t)).1)
        (upload-Has k (some p) c.base_url c.owner c.repo hash_algo c.auth_header oid size w hex
          sized h)

  -- After a check that said yes to an upload: a new object has no policy.
  checked_fresh :
      (r : Option RepositoryIdentifier) (oid : Oid) (w v : W) (auth : AuthorizationResult)
      → Inv w
      → check_authorization s.policies operation_upload r oid w ≡ (ok auth, v)
      → auth.is_new_object ≡ true
      → policy w oid.value ≡ none
  checked_fresh r oid w v auth inv checked t =
      let (repo, _, permits) =
        check_authorization-Permits s.policies policy Inv lawful.policies operation_upload r oid w v
          auth inv checked in
      elim permits [ inl (missing, _, _) ↦ missing | inr (p, _, _, e) ↦ cc (e, t) ]

  authorized-Has :
      (k : Text) (p : AccessPolicy) (r : Option RepositoryIdentifier) (hash_algo : Text) (oid : Oid)
      (size : Size) (w : W)
      → new_oid oid.value ≡ ok oid
      → new_size size.value ≡ ok size
      → Has k (some p) w
      → Has k
          (some p)
          (authorized s.policies r operation_upload (upload_allowed s c r hash_algo) oid size w).1
  unfolding authorized ◌>>=◌
  authorized-Has k p r hash_algo oid size w hex sized h =
      go (check_authorization s.policies operation_upload r oid w) refl
    where
      go :
          (x : Result AuthorizationResult × W)
          → check_authorization s.policies operation_upload r oid w ≡ x
          → Has k
              (some p)
              (continue x.0
                (λ auth.
                  if not auth.allowed
                  then raise (sentinel access_denied)
                  else upload_allowed s c r hash_algo auth oid size)
                x.1).1
      go (err e, v) checked =
          subst (Has k (some p)) (ap (λ (x : Result AuthorizationResult × W). x.1) checked)
            (check-Has k (some p) operation_upload r oid w h)
      go (ok auth, v) checked =
          let here =
            subst (Has k (some p)) (ap (λ (x : Result AuthorizationResult × W). x.1) checked)
              (check-Has k (some p) operation_upload r oid w h) in
          let fresh = λ (t : auth.is_new_object ≡ true).
            (subst (Has oid.value none) (ap (λ (x : Result AuthorizationResult × W). x.1) checked) (
              check-Has oid.value none operation_upload r oid w
                (h.0, checked_fresh r oid w v auth h.0 checked t))).1 in
          if_both (λ (m : Exec W ResponseObject). Has k (some p) (m v).1) (not auth.allowed) here
            (upload_allowed-Has k p r hash_algo auth oid size v hex sized fresh here)

  upload_one-Has :
      (k : Text) (p : AccessPolicy) (r : Option RepositoryIdentifier) (hash_algo : Text)
      (q : RequestObject)
      → Keeps (Has k (some p)) (upload_one s c r hash_algo q)
  unfolding upload_one round ◌>>=◌
  upload_one-Has k p r hash_algo q = record {
    at = λ w h. elim (Result-cases (new_oid q.oid)) [
      | inr (e, refusal) ↦ rw refusal h
      | inl (oid, parsed) ↦ elim (Result-cases (new_size q.size)) [
        | inr (e, refusal) ↦ rw (parsed, refusal) h
        | inl (size, sized) ↦
            rw (parsed, sized)
              (authorized-Has k p r hash_algo oid size w (new_oid-value q.oid oid parsed)
                (new_size_idem q.size size sized) h)
      ]
    ];
  }

  each_object-Has :
      (k : Text) (p : AccessPolicy) (r : Option RepositoryIdentifier) (hash_algo : Text)
      (done : List ResponseObject) (qs : List RequestObject)
      → Keeps (Has k (some p)) (each_object (upload_one s c r hash_algo) done qs)
  unfolding each_object
  each_object-Has k p r hash_algo done [] = Keeps-pure done
  each_object-Has k p r hash_algo done (q ∷ qs) =
      Keeps-bind _ _ (upload_one-Has k p r hash_algo q)
        λ a. each_object-Has k p r hash_algo (done ++ a ∷ []) qs

  -- From a sound world, over repositories that keep their promises: a batch upload, whether it
  -- returns or fails on the way, leaves every existing policy as it is.
  pub handle_batch_upload-policy :
      (req : BatchRequest) (w : W) (k : Text) (p : AccessPolicy)
      → Inv w
      → policy w k ≡ some p
      → policy (handle_batch_upload s c req w).1 k ≡ some p
  unfolding handle_batch_upload run_batch
  handle_batch_upload-policy req w k p v h = (kept.at w (v, h)).1
    where
      kept : Keeps (Has k (some p)) (run_batch operation_upload (upload_one s c req.repository) req)
      kept = Keeps-bind _ _ (Keeps-lift _) λ u. Keeps-bind _ _ (Keeps-lift _) λ u'.
          Keeps-bind _ _
            (each_object-Has k p req.repository (hash_algo_or_default req.hash_algo) [] req.objects)
            λ objects. Keeps-pure _
