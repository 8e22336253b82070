-- ===== src/Ports/Promises.antt =====
-- What the repositories promise, over an abstract view of the world: the object and the policy
-- that stand under an OID. `Inv` is the implementation's own invariant. Any operation may fail; a
-- write that failed may have taken place or not. What a store keeps of a time is its own `kept`, as a
-- column TIMESTAMP of PostgreSQL keeps microseconds.
-- At `k` the view has stayed the same, or it has become the written value.
use cargohold.Domain.Object.{LfsObject, Time}
use cargohold.Domain.Object.Laws.{IsObject}
use cargohold.Domain.Oid.{Oid}
use cargohold.Domain.Policy.{AccessPolicy}
use cargohold.Exec.{err, ok}
use cargohold.Failure.{GoError, access_policy_not_found, is_error, not_found}
use cargohold.Ports.{AccessPolicyRepository, LfsObjectRepository, Services}
use cargohold.Prelude.{Option, none, some, true, ◌≡◌, ◌≢◌, ◌⊎◌}
use cargohold.Prelude.Text.{Text}

abbrev pub IsWritten : {A : Type 0} → Text → Text → A → Option A → Option A → Type 0
IsWritten at k a before after = (after ≡ before) ⊎ ((at ≡ k) × (after ≡ some a))

-- An object as the columns keep it, where `kept` is what a column keeps of a time.
abbrev pub at_columns : (Time → Time) → LfsObject → LfsObject
at_columns kept x = record x { created_at = kept x.created_at; updated_at = kept x.updated_at }

-- The stored object `y` after an update to `x`, which does not move the creation.
abbrev pub revised : (Time → Time) → LfsObject → LfsObject → LfsObject
revised kept y x = record x { created_at = y.created_at; updated_at = kept x.updated_at }

module _ {W : Type 0} where
  pub record IsObjectStore (repo : LfsObjectRepository W) (stored : W → Text → Option LfsObject)
      (Inv : W → Type 0) : Type 0 where
    pub kept : Time → Time
    pub find-Inv : (o : Oid) (w : W) → Inv w → Inv (repo.find_by_oid o w).1
    pub find-stored :
        (o : Oid) (w : W) (k : Text) → Inv w → stored (repo.find_by_oid o w).1 k ≡ stored w k
    pub find-ok :
        (o : Oid) (w : W) (x : LfsObject)
        → Inv w
        → (repo.find_by_oid o w).0 ≡ ok x
        → stored w o.value ≡ some x
    pub find_missing :
        (o : Oid) (w : W) (e : GoError)
        → Inv w
        → (repo.find_by_oid o w).0 ≡ err e
        → is_error e not_found ≡ true
        → stored w o.value ≡ none
    pub save-Inv : (x : LfsObject) (w : W) → IsObject x → Inv w → Inv (repo.save x w).1
    pub save-ok :
        (x : LfsObject) (w : W)
        → IsObject x
        → Inv w
        → (repo.save x w).0 ≡ ok tt
        → stored (repo.save x w).1 x.oid.value ≡ some (at_columns kept x)
    pub save-stored :
        (x : LfsObject) (w : W) (k : Text)
        → IsObject x
        → Inv w
        → IsWritten x.oid.value k (at_columns kept x) (stored w k) (stored (repo.save x w).1 k)
    pub update-Inv :
        (x y : LfsObject) (w : W)
        → IsObject x
        → stored w x.oid.value ≡ some y
        → Inv w
        → Inv (repo.update x w).1
    pub update-ok :
        (x y : LfsObject) (w : W)
        → IsObject x
        → stored w x.oid.value ≡ some y
        → Inv w
        → (repo.update x w).0 ≡ ok tt
        → stored (repo.update x w).1 x.oid.value ≡ some (revised kept y x)
    pub update-stored :
        (x y : LfsObject) (w : W) (k : Text)
        → IsObject x
        → stored w x.oid.value ≡ some y
        → Inv w
        → IsWritten x.oid.value k (revised kept y x) (stored w k) (stored (repo.update x w).1 k)
    -- Objects are stored under their own OID, and are as the constructors make them.
    pub stored-IsObject :
        (w : W) (k : Text) (x : LfsObject)
        → Inv w
        → stored w k ≡ some x
        → IsObject x × (x.oid.value ≡ k)

  pub record IsPolicyStore (repo : AccessPolicyRepository W)
      (stored : W → Text → Option AccessPolicy) (Inv : W → Type 0) : Type 0 where
    pub find-Inv : (o : Oid) (w : W) → Inv w → Inv (repo.find_by_oid o w).1
    pub find-stored :
        (o : Oid) (w : W) (k : Text) → Inv w → stored (repo.find_by_oid o w).1 k ≡ stored w k
    pub find-ok :
        (o : Oid) (w : W) (p : Option AccessPolicy)
        → Inv w
        → (repo.find_by_oid o w).0 ≡ ok p
        → stored w o.value ≡ p
    pub find_missing :
        (o : Oid) (w : W) (e : GoError)
        → Inv w
        → (repo.find_by_oid o w).0 ≡ err e
        → is_error e access_policy_not_found ≡ true
        → stored w o.value ≡ none
    pub save-Inv : (p : AccessPolicy) (w : W) → Inv w → Inv (repo.save p w).1
    pub save-ok :
        (p : AccessPolicy) (w : W)
        → Inv w
        → (repo.save p w).0 ≡ ok tt
        → (q : AccessPolicy) × (stored (repo.save p w).1 p.oid.value ≡ some q)
          × (q.repository ≡ p.repository)
    pub save-stored :
        (p : AccessPolicy) (w : W) (k : Text)
        → Inv w
        → p.oid.value ≢ k
        → stored (repo.save p w).1 k ≡ stored w k

  -- The two stores of one world: neither touches what the other holds.
  pub record IsLawful (s : Services W) (stored : W → Text → Option LfsObject)
      (policy : W → Text → Option AccessPolicy) (Inv : W → Type 0) : Type 0 where
    pub objects : IsObjectStore s.objects stored Inv
    pub policies : IsPolicyStore s.policies policy Inv
    pub find_object-policy :
        (o : Oid) (w : W) (k : Text) → Inv w → policy (s.objects.find_by_oid o w).1 k ≡ policy w k
    pub save_object-policy :
        (x : LfsObject) (w : W) (k : Text) → Inv w → policy (s.objects.save x w).1 k ≡ policy w k
    pub update_object-policy :
        (x : LfsObject) (w : W) (k : Text) → Inv w → policy (s.objects.update x w).1 k ≡ policy w k
    pub find_policy-stored :
        (o : Oid) (w : W) (k : Text) → Inv w → stored (s.policies.find_by_oid o w).1 k ≡ stored w k
    pub save_policy-stored :
        (p : AccessPolicy) (w : W) (k : Text)
        → Inv w
        → stored (s.policies.save p w).1 k ≡ stored w k
