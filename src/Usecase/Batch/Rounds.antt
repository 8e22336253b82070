-- ===== src/Usecase/Batch/Rounds.antt =====
-- What a round of a batch loop went through, if it returned an answer.
use mathlib.Core.Path.{subst}
use cargohold.Domain.Oid.{Oid, Size, new_oid, new_size}
use cargohold.Domain.Operation.{Operation}
use cargohold.Domain.Operation.Laws.{operation_eq_iff}
use cargohold.Domain.Repository.{RepositoryIdentifier}
use cargohold.Exec.{Exec, ok}
use cargohold.Exec.Keeps.{
  bind_returned, lift_returned, map_err-eq-ok, pure_returned, raise_returned,
}
use cargohold.Ports.{AccessPolicyRepository}
use cargohold.Prelude.{Bool-cases, List, Option, [], ap, arith, inl, inr, sym, ◌∙◌, ◌≡◌, ◌⊎◌}
use cargohold.Prelude.Text.{Text, codes, text_eq_iff}
use cargohold.Usecase.Authorize.{AuthorizationResult, check_authorization}
use cargohold.Usecase.Batch.{
  authorized, check_operation, each_object, new_batch_response, round, run_batch,
}
use cargohold.Usecase.Request.{BatchRequest, RequestObject, hash_algo_or_default}
use cargohold.Usecase.Request.Laws.{IsValidRequest, validate_iff}
use cargohold.Usecase.Response.{BatchResponse, ResponseObject}

module _ {W : Type 0} (policies : AccessPolicyRepository W)
    (repository : Option RepositoryIdentifier) (operation : Operation)
    (act : AuthorizationResult → Oid → Size → Exec W ResponseObject) where
  -- The object was parsed, the operation allowed, and the rest of the round ran from there.
  pub record IsRound (q : RequestObject) (a : ResponseObject) (w w' : W) : Type 0 where
    pub oid : Oid
    pub size : Size
    pub auth : AuthorizationResult
    pub seen : W
    pub parsed_oid : new_oid q.oid ≡ ok oid
    pub parsed_size : new_size q.size ≡ ok size
    pub checked : check_authorization policies operation repository oid w ≡ (ok auth, seen)
    pub acted : act auth oid size seen ≡ (ok a, w')

  authorized_returned :
      (oid : Oid) (size : Size) (a : ResponseObject) (w w' : W)
      → authorized policies repository operation act oid size w ≡ (ok a, w')
      → (auth : AuthorizationResult) × (seen : W) × (check_authorization policies operation
            repository oid w
          ≡ (ok auth, seen))
        × (act auth oid size seen ≡ (ok a, w'))
  unfolding authorized
  authorized_returned oid size a w w' h =
      let (auth, seen, checked, rest) = bind_returned _ _ w w' a h in
      elim (Bool-cases auth.allowed) [
        | inl yes_allowed ↦ (auth, seen, checked, rw yes_allowed at rest)
        | inr refusal ↦ absurd (raise_returned _ _ w' a (rw refusal at rest))
      ]

  pub round_returned :
      (q : RequestObject) (a : ResponseObject) (w w' : W)
      → round policies repository operation act q w ≡ (ok a, w')
      → IsRound q a w w'
  unfolding round
  round_returned q a w w' h =
      let (oid, v, e, h') = bind_returned _ _ w w' a h in
      let (size, u, f, h'') = bind_returned _ _ v w' a h' in
      let (parsed_oid, same) = lift_returned _ w v oid e in
      let (parsed_size, same') = lift_returned _ v u size f in
      let (auth, seen, checked, acted) = authorized_returned oid size a w w' (
        subst (λ x. authorized policies repository operation act oid size x ≡ (ok a, w'))
          (same' ∙ same) h'') in
      record {
        oid = oid;
        size = size;
        auth = auth;
        seen = seen;
        parsed_oid = map_err-eq-ok _ _ parsed_oid;
        parsed_size = map_err-eq-ok _ _ parsed_size;
        checked = checked;
        acted = acted;
      }

check_operation-ok :
    (wanted operation : Operation) → check_operation wanted operation ≡ ok tt → operation ≡ wanted
check_operation-ok wanted operation h = ground (arith, operation_eq_iff operation wanted)

hash_algo_of_valid :
    (s : Text) → (s ≡ []) ⊎ (s ≡ codes "sha256") → hash_algo_or_default s ≡ codes "sha256"
unfolding hash_algo_or_default
hash_algo_of_valid s h = ground (arith, text_eq_iff s [])

module _ {W : Type 0} where
  -- A handler that returned: the request was valid and for this operation, the loop ran to its end,
  -- and the response holds what the loop collected.
  pub run_batch_returned :
      (wanted : Operation) (one : Text → RequestObject → Exec W ResponseObject) (req : BatchRequest)
      (resp : BatchResponse) (w w' : W)
      → run_batch wanted one req w ≡ (ok resp, w')
      → (objects : List ResponseObject) × IsValidRequest req
        × (req.operation ≡ wanted)
        × (each_object (one (codes "sha256")) [] req.objects w ≡ (ok objects, w'))
        × (resp ≡ new_batch_response objects (codes "sha256"))
  unfolding run_batch
  run_batch_returned wanted one req resp w w' h =
      let (u, v₁, e₁, h₁) = bind_returned _ _ w w' resp h in
      let (u', v₂, e₂, h₂) = bind_returned _ _ v₁ w' resp h₁ in
      let (objects, v₃, e₃, h₃) = bind_returned _ _ v₂ w' resp h₂ in
      let (valid, same₁) = lift_returned _ w v₁ u e₁ in
      let (wanted_one, same₂) = lift_returned _ v₁ v₂ u' e₂ in
      let (made, same₃) = pure_returned _ resp v₃ w' h₃ in
      let good = (validate_iff req).0 valid in
      let named = hash_algo_of_valid req.hash_algo good.hash in
      (
        objects,
        good,
        check_operation-ok wanted req.operation wanted_one,
        subst (λ n. each_object (one n) [] req.objects w ≡ (ok objects, w')) named
            (subst
              (λ x.
                each_object (one (hash_algo_or_default req.hash_algo)) [] req.objects x
                ≡ (ok objects, w'))
              (same₂ ∙ same₁) (e₃ ∙ ap (λ v. (ok objects, v)) same₃)),
        sym made ∙ ap (new_batch_response objects) named,
      )
