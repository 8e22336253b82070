-- ===== src/Infra/StorageKey/Laws.antt =====
-- What a storage key tells, and that the objects of the server always have one.
use mathlib.Core.Path.{subst}
use cargohold.Domain.Oid.{HashAlgorithm, Oid, is_hex, new_hash_algorithm, new_oid, new_storage_key}
use cargohold.Domain.Oid.Laws.{new_hash_algorithm-value, new_oid-value}
use cargohold.Exec.{ok}
use cargohold.Exec.Keeps.{ok_inj, then_ok-eq-ok}
use cargohold.Infra.StorageKey.{
  generate_storage_key, is_hash_algo_char, layout, validate_hash_algo, validate_oid,
}
use cargohold.Prelude.{
  All, List, [], all, ap, arith, drop, refl, suc, sym, take, true, zero, ℕ, ◌∙◌, ◌∷◌, ◌≡◌,
}
use cargohold.Prelude.Text.{Text, codes, text_eq, text_eq_iff}
use cargohold.Prelude.Text.Split.{Lacks, split, split-Lacks, split-append}

All-take : {A : Type 0} (P : A → Type 0) (n : ℕ) (xs : List A) → All P xs → All P (take n xs)
All-take P zero xs h = tt
All-take P (suc n) [] h = tt
All-take P (suc n) (x ∷ xs) h = (h.0, All-take P n xs h.1)

All-drop : {A : Type 0} (P : A → Type 0) (n : ℕ) (xs : List A) → All P xs → All P (drop n xs)
All-drop P zero xs h = h
All-drop P (suc n) [] h = tt
All-drop P (suc n) (x ∷ xs) h = All-drop P n xs h.1

hex-Lacks : (s : Text) → all is_hex s ≡ true → Lacks b'/' s
unfolding all is_hex
hex-Lacks [] h = tt
hex-Lacks (c ∷ s) h = (ground arith, hex-Lacks s (ground arith))

hash_algo-Lacks : (s : Text) → all is_hash_algo_char s ≡ true → Lacks b'/' s
unfolding all is_hash_algo_char
hash_algo-Lacks [] h = tt
hash_algo-Lacks (c ∷ s) h = (ground arith, hash_algo-Lacks s (ground arith))

validate_oid-Lacks : (s : Text) → validate_oid s ≡ ok tt → Lacks b'/' s
unfolding validate_oid
validate_oid-Lacks s h = hex-Lacks s (ground arith)

validate_hash_algo-Lacks : (s : Text) → validate_hash_algo s ≡ ok tt → Lacks b'/' s
unfolding validate_hash_algo
validate_hash_algo-Lacks s h = hash_algo-Lacks s (ground arith)

objects_ok : all is_hash_algo_char (codes "objects") ≡ true
unfolding all is_hash_algo_char
objects_ok = refl

-- A key that was generated splits at the slashes into the five parts of its format.
pub split-generate_storage_key :
    (oid hash_algo key : Text)
    → generate_storage_key oid hash_algo ≡ ok key
    → split key b'/' ≡ codes "objects" ∷ hash_algo ∷ take 2 oid ∷ take 2 (drop 2 oid) ∷ oid ∷ []
unfolding generate_storage_key
split-generate_storage_key oid hash_algo key h =
    let (_, algo_ok, rest) = then_ok-eq-ok (validate_hash_algo hash_algo) _ h in
    let (_, oid_ok, e) = then_ok-eq-ok (validate_oid oid) _ rest in
    let algo = validate_hash_algo-Lacks hash_algo algo_ok in
    let hex = validate_oid-Lacks oid oid_ok in
    let shard = All-take _ 2 oid hex in
    let shard' = All-take _ 2 (drop 2 oid) (All-drop _ 2 oid hex) in
    let parts =
      split-append b'/' (codes "objects") _ (hash_algo-Lacks (codes "objects") objects_ok)
      ∙ ap (λ ps. codes "objects" ∷ ps)
          (split-append b'/' hash_algo _ algo
            ∙ ap (λ ps. hash_algo ∷ ps)
                (split-append b'/' (take 2 oid) _ shard
                  ∙ ap (λ ps. take 2 oid ∷ ps)
                      (split-append b'/' (take 2 (drop 2 oid)) oid shard'
                        ∙ ap (λ ps. take 2 (drop 2 oid) ∷ ps) (split-Lacks b'/' oid hex)))) in
    subst
      (λ k.
        split k b'/' ≡ codes "objects" ∷ hash_algo ∷ take 2 oid ∷ take 2 (drop 2 oid) ∷ oid ∷ [])
      (ok_inj e) parts

-- If two pairs of OID and algorithm have the same key generated, they are the same pair.
pub generate_storage_key_injective :
    (oid hash_algo oid' hash_algo' key : Text)
    → generate_storage_key oid hash_algo ≡ ok key
    → generate_storage_key oid' hash_algo' ≡ ok key
    → (oid ≡ oid') × (hash_algo ≡ hash_algo')
generate_storage_key_injective oid hash_algo oid' hash_algo' key h h' =
    let p = split-generate_storage_key oid hash_algo key h in
    let q = split-generate_storage_key oid' hash_algo' key h' in (cc (p, q), cc (p, q))

valid_oid : (s : Text) (o : Oid) → new_oid s ≡ ok o → validate_oid s ≡ ok tt
unfolding new_oid validate_oid
valid_oid s o h = ground (arith, text_eq_iff s [])

valid_hash_algo :
    (s : Text) (a : HashAlgorithm)
    → new_hash_algorithm s ≡ ok a
    → validate_hash_algo a.value ≡ ok tt
unfolding validate_hash_algo
valid_hash_algo s a h =
    subst (λ t. validate_hash_algo t ≡ ok tt) (sym (new_hash_algorithm-value s a h)) refl

-- Every OID and algorithm that the domain accepts has a key, which the domain accepts in turn.
pub generate_storage_key-Oid :
    (s name : Text) (o : Oid) (a : HashAlgorithm)
    → new_oid s ≡ ok o
    → new_hash_algorithm name ≡ ok a
    → (key : Text) × (generate_storage_key o.value a.value ≡ ok key)
      × (new_storage_key key ≡ ok (record { value = key }))
unfolding generate_storage_key new_storage_key text_eq
generate_storage_key-Oid s name o a h k =
    let oid_ok = valid_oid o.value o (new_oid-value s o h) in
    let algo_ok = valid_hash_algo name a k in
    (layout a.value o.value, rw (algo_ok, oid_ok) refl, refl)
