-- ===== src/Tests/WorldLaws.antt =====
-- The world in memory keeps the promises that the theorems take.
use mathlib.Core.Path.{subst}
use cargohold.Domain.Object.{LfsObject}
use cargohold.Domain.Object.Laws.{IsObject}
use cargohold.Domain.Policy.{AccessPolicy}
use cargohold.Exec.{err, ok}
use cargohold.Failure.{GoError, Sentinel, not_found, redis_nil}
use cargohold.Infra.Caching.Laws.{IsBacking, IsCache}
use cargohold.Ports.Promises.{IsLawful, IsObjectStore, IsPolicyStore, IsWritten, revised}
use cargohold.Prelude.{
  Bool-cases, Option, ap, if◌then◌else◌, inl, inr, none, refl, some, some_inj, sym, ◌∙◌, ◌≡◌, ◌≢◌,
  ◌⊎◌,
}
use cargohold.Prelude.Text.{Text, text_eq, text_eq_iff, text_eq_refl}
use cargohold.Tests.World.{
  Inv, World, answer, cache_client, found_policy, object_repository, policy_repository, services,
  set, updated,
}

pub set-same : {A : Type 0} (k : Text) (a : A) (f : Text → Option A) → set k a f k ≡ some a
set-same k a f = rw (text_eq_refl k)

pub set-other : {A : Type 0} (k j : Text) (a : A) (f : Text → Option A) → k ≢ j → set k a f j ≡ f j
set-other k j a f h = elim (Bool-cases (text_eq k j)) [
  | inl e ↦ absurd (h ((text_eq_iff k j).0 e))
  | inr e ↦ rw e
]

pub set-IsWritten :
    {A : Type 0} (k j : Text) (a : A) (f : Text → Option A) → IsWritten k j a (f j) (set k a f j)
set-IsWritten k j a f = elim (Bool-cases (text_eq k j)) [
  | inl e ↦ rw e (inr ((text_eq_iff k j).0 e, refl))
  | inr e ↦ rw e (inl refl)
]

pub answer-ok : {A : Type 0} (s : Sentinel) (o : Option A) (a : A) → answer s o ≡ ok a → o ≡ some a
answer-ok s none a h = cc h
answer-ok s (some b) a h = cc h

pub answer-err :
    {A : Type 0} (s : Sentinel) (o : Option A) (e : GoError) → answer s o ≡ err e → o ≡ none
answer-err s none e h = refl
answer-err s (some b) e h = cc h

found_policy-ok : (o p : Option AccessPolicy) → found_policy o ≡ ok p → o ≡ p
found_policy-ok none p h = cc h
found_policy-ok (some q) p h = cc h

found_policy-err : (o : Option AccessPolicy) (e : GoError) → found_policy o ≡ err e → o ≡ none
found_policy-err none e h = refl
found_policy-err (some q) e h = cc h

write-Inv :
    (x : LfsObject) (w : World)
    → IsObject x
    → Inv w
    → Inv (record w { objects = set x.oid.value x w.objects })
write-Inv x w good v k y h = elim (set-IsWritten x.oid.value k x w.objects) [
  | inl e ↦ v k y (sym e ∙ h)
  | inr (at, e) ↦
      let same = some_inj (sym e ∙ h) in
      (subst IsObject same good, ap (λ (z : LfsObject). z.oid.value) (sym same) ∙ at)
]

updated-revised :
    (o : Option LfsObject) (x y : LfsObject) → o ≡ some y → updated o x ≡ revised (λ t. t) y x
updated-revised o x y h = rw h refl

updated-Inv :
    (x y : LfsObject) (w : World)
    → IsObject x
    → w.objects x.oid.value ≡ some y
    → Inv w
    → Inv (object_repository.update x w).1
updated-Inv x y w good old v = rw old (
    write-Inv (record x { created_at = y.created_at }) w
      (record { hex = good.hex; sized = good.sized; hashed = good.hashed; keyed = good.keyed }) v)

pub world-IsObjectStore : IsObjectStore object_repository (λ w. w.objects) Inv
world-IsObjectStore = record {
  kept = λ t. t;
  find-Inv = λ o w v. v;
  find-stored = λ o w k v. refl;
  find-ok = λ o w x v e. answer-ok not_found (w.objects o.value) x e;
  find_missing = λ o w e v h t. answer-err not_found (w.objects o.value) e h;
  save-Inv = write-Inv;
  save-ok = λ x w good v e. set-same x.oid.value x w.objects;
  save-stored = λ x w k good v. set-IsWritten x.oid.value k x w.objects;
  update-Inv = updated-Inv;
  update-ok = λ x y w good old v e.
      set-same x.oid.value (updated (w.objects x.oid.value) x) w.objects
      ∙ ap some (updated-revised (w.objects x.oid.value) x y old);
  update-stored = λ x y w k good old v.
      subst
        (λ z. IsWritten x.oid.value k z (w.objects k) ((object_repository.update x w).1.objects k))
        (updated-revised (w.objects x.oid.value) x y old)
        (set-IsWritten x.oid.value k (updated (w.objects x.oid.value) x) w.objects);
  stored-IsObject = λ w k x v h. v k x h;
}

pub world-IsPolicyStore : IsPolicyStore policy_repository (λ w. w.policies) Inv
world-IsPolicyStore = record {
  find-Inv = λ o w v. v;
  find-stored = λ o w k v. refl;
  find-ok = λ o w p v e. found_policy-ok (w.policies o.value) p e;
  find_missing = λ o w e v h t. found_policy-err (w.policies o.value) e h;
  save-Inv = λ p w v. v;
  save-ok = λ p w v e. (p, set-same p.oid.value p w.policies, refl);
  save-stored = λ p w k v other. set-other p.oid.value k p w.policies other;
}

pub world-IsLawful : IsLawful services (λ w. w.objects) (λ w. w.policies) Inv
world-IsLawful = record {
  objects = world-IsObjectStore;
  policies = world-IsPolicyStore;
  find_object-policy = λ o w k v. refl;
  save_object-policy = λ x w k v. refl;
  update_object-policy = λ x w k v. refl;
  find_policy-stored = λ o w k v. refl;
  save_policy-stored = λ p w k v. refl;
}

cleared :
    {A : Type 0} (k j : Text) (f : Text → Option A) (a : A)
    → (if text_eq k j then none else f j) ≡ some a
    → f j ≡ some a
cleared k j f a h = elim (Bool-cases (text_eq k j)) [ inl e ↦ cc (rw e at h) | inr e ↦ rw e at h ]

pub set-cases :
    {A : Type 0} (k j : Text) (a b : A) (f : Text → Option A)
    → set k a f j ≡ some b
    → ((k ≡ j) × (b ≡ a)) ⊎ (f j ≡ some b)
set-cases k j a b f h = elim (Bool-cases (text_eq k j)) [
  | inl e ↦ inl ((text_eq_iff k j).0 e, sym (some_inj (rw e at h)))
  | inr e ↦ inr (rw e at h)
]

pub world-IsCache : IsCache cache_client (λ w. w.cached) (λ w. w.objects) Inv
world-IsCache = record {
  get-Inv = λ k w v. v;
  get-stored = λ k w j. refl;
  get-cached = λ k w j c h. h;
  get-ok = λ k w c h. answer-ok redis_nil (w.cached k) c h;
  set-Inv = λ k c ttl w v. v;
  set-stored = λ k c ttl w j. refl;
  set-cached = λ k c ttl w j d h. set-cases k j c d w.cached h;
  set-ok = λ k c ttl w d h e. sym (some_inj (sym (set-same k c w.cached) ∙ e));
  delete-Inv = λ k w v. v;
  delete-stored = λ k w j. refl;
  delete-cached = λ k w j c h. cleared k j w.cached c h;
}

pub world-IsBacking : IsBacking object_repository (λ w. w.cached) (λ w. w.objects) Inv
world-IsBacking = record {
  store = world-IsObjectStore;
  find-cached = λ o w j. refl;
  save-cached = λ x w j. refl;
  update-cached = λ x w j. refl;
}
