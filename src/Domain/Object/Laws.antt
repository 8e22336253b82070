-- ===== src/Domain/Object/Laws.antt =====
-- Objects that the constructors make, and their reconstruction.
-- What holds of every object that the constructors return.
use mathlib.Core.Path.{ap₂}
use cargohold.Domain.Object.{
  LfsObject, Time, mark_as_uploaded, new_lfs_object, reconstruct_lfs_object,
}
use cargohold.Domain.Oid.{
  HashAlgorithm, Oid, Size, StorageKey, new_hash_algorithm, new_oid, new_size, new_storage_key,
}
use cargohold.Domain.Oid.Laws.{
  is_ok-new_hash_algorithm, new_hash_algorithm_idem, new_storage_key_idem,
}
use cargohold.Exec.{is_ok, ok}
use cargohold.Exec.Keeps.{ok_inj, then_ok-eq-ok}
use cargohold.Prelude.{Bool, [], ap, false, inl, inr, refl, sym, ◌↔◌, ◌∙◌, ◌∷◌, ◌≡◌, ◌≢◌, ◌⊎◌}
use cargohold.Prelude.Text.{Text, codes, text_eq}

pub record IsObject (o : LfsObject) : Type 0 where
  pub hex : new_oid o.oid.value ≡ ok o.oid
  pub sized : new_size o.size.value ≡ ok o.size
  pub hashed : new_hash_algorithm o.hash_algo.value ≡ ok o.hash_algo
  pub keyed : new_storage_key o.storage_key.value ≡ ok o.storage_key

hash_accepted :
    (s : Text)
    → (s ≡ []) ⊎ (s ≡ codes "sha256")
    → new_hash_algorithm s ≡ ok (record { value = codes "sha256" })
unfolding new_hash_algorithm text_eq
hash_accepted s (inl e) = rw e refl
hash_accepted s (inr e) = rw e refl

hash_named :
    (s : Text) (h : HashAlgorithm)
    → new_hash_algorithm s ≡ ok h
    → ((s ≡ []) ⊎ (s ≡ codes "sha256")) × (h ≡ record { value = codes "sha256" })
hash_named s h e =
    let name = (is_ok-new_hash_algorithm s).0 (ap is_ok e) in
    (name, ok_inj (sym e ∙ hash_accepted s name))

key_accepted : (s : Text) → s ≢ [] → new_storage_key s ≡ ok (record { value = s })
unfolding new_storage_key text_eq
key_accepted [] some_key = absurd (some_key refl)
key_accepted (c ∷ s) some_key = refl

key_named :
    (s : Text) (k : StorageKey) → new_storage_key s ≡ ok k → (s ≢ []) × (k ≡ record { value = s })
unfolding new_storage_key text_eq
key_named [] k e = cc e
key_named (c ∷ s) k e = ((λ h. cc h), sym (ok_inj e))

-- Fields read from a store make an object exactly if the algorithm is "sha256" or left out and there
-- is a storage key; the object has sha256 as its algorithm and every other field as it was read.
pub reconstruct_lfs_object-eq-ok_iff :
    (oid : Oid) (size : Size) (hash_algo key : Text) (uploaded : Bool)
    (created_at updated_at : Time) (x : LfsObject)
    → (reconstruct_lfs_object oid size hash_algo key uploaded created_at updated_at ≡ ok x) ↔ (
        ((hash_algo ≡ []) ⊎ (hash_algo ≡ codes "sha256"))
        × (key ≢ [])
        × (x ≡ record {
          oid = oid;
          size = size;
          hash_algo = record { value = codes "sha256" };
          storage_key = record { value = key };
          uploaded = uploaded;
          created_at = created_at;
          updated_at = updated_at;
        }))
unfolding reconstruct_lfs_object
reconstruct_lfs_object-eq-ok_iff oid size hash_algo key uploaded created_at updated_at x = (
  (λ h.
      let (a, hashed, h) = then_ok-eq-ok (new_hash_algorithm hash_algo) _ h in
      let (k, keyed, e) = then_ok-eq-ok (new_storage_key key) _ h in
      let (name, same_algorithm) = hash_named hash_algo a hashed in
      let (some_key, same_key) = key_named key k keyed in
      (
        name,
        some_key,
        sym (ok_inj e)
            ∙ ap₂
                (λ (b : HashAlgorithm) (l : StorageKey). record {
                  oid = oid;
                  size = size;
                  hash_algo = b;
                  storage_key = l;
                  uploaded = uploaded;
                  created_at = created_at;
                  updated_at = updated_at;
                })
                same_algorithm same_key,
      )),
  λ (name, some_key, e).
      rw (hash_accepted hash_algo name, key_accepted key some_key) (ap ok (sym e)),
)

-- An object as the constructors make it is rebuilt from its own fields.
pub reconstruct_of_IsObject :
    (o : LfsObject)
    → IsObject o
    → reconstruct_lfs_object o.oid o.size o.hash_algo.value o.storage_key.value o.uploaded
        o.created_at o.updated_at
      ≡ ok o
unfolding reconstruct_lfs_object
reconstruct_of_IsObject o v = rw (v.hashed, v.keyed)

pub mark_as_uploaded-IsObject :
    (now : Time) (o : LfsObject) → IsObject o → IsObject (mark_as_uploaded now o)
unfolding mark_as_uploaded
mark_as_uploaded-IsObject now o v = record {
  hex = v.hex;
  sized = v.sized;
  hashed = v.hashed;
  keyed = v.keyed;
}

-- A new object waits for its content; it is well-formed if what it is made from is.
pub new_lfs_object-IsObject :
    (now : Time) (oid : Oid) (size : Size) (name key : Text) (h : HashAlgorithm) (x : LfsObject)
    → new_oid oid.value ≡ ok oid
    → new_size size.value ≡ ok size
    → new_hash_algorithm name ≡ ok h
    → new_lfs_object now oid size h key ≡ ok x
    → IsObject x × (x.oid ≡ oid) × (x.size ≡ size) × (x.uploaded ≡ false)
unfolding new_lfs_object
new_lfs_object-IsObject now oid size name key h x hex sized hashed made =
    let (sk, keyed, e) = then_ok-eq-ok (new_storage_key key) _ made in
    (
      record {
        hex = cc (e, hex);
        sized = cc (e, sized);
        hashed = cc (e, new_hash_algorithm_idem name h hashed);
        keyed = cc (e, new_storage_key_idem key sk keyed);
      },
      cc e,
      cc e,
      cc e,
    )

pub oid-mark_as_uploaded :
    (now : Time) (x : LfsObject) → (mark_as_uploaded now x).oid.value ≡ x.oid.value
unfolding mark_as_uploaded
oid-mark_as_uploaded now x = refl
