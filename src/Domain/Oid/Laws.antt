-- ===== src/Domain/Oid/Laws.antt =====
-- Which texts and numbers the constructors accept, and that they keep the value.
use cargohold.Domain.Oid.{
  HashAlgorithm, Oid, Size, StorageKey, is_hex, matches_oid_pattern, new_hash_algorithm, new_oid,
  new_size, new_storage_key,
}
use cargohold.Exec.{is_ok, ok}
use cargohold.Exec.Keeps.{ok_inj}
use cargohold.Prelude.{
  ==_iff, All, Bool-cases, [], all, ap, arith, inl, inr, length, refl, sym, true, ℕ, ◌↔◌, ◌∷◌, ◌≡◌,
  ◌≤◌, ◌⊎◌,
}
use cargohold.Prelude.Int.{ℤ}
use cargohold.Prelude.Text.{Text, codes, text_eq_iff}

-- The code of one of 0 to 9, A to F and a to f.
abbrev pub IsHexDigit : ℕ → Type 0
IsHexDigit c = ((48 ≤ c) × (c ≤ 57)) ⊎ (((65 ≤ c) × (c ≤ 70)) ⊎ ((97 ≤ c) × (c ≤ 102)))

abbrev pub IsOid : Text → Type 0
IsOid s = All IsHexDigit s × (length s ≡ 64)

is_hex_iff : (c : ℕ) → (is_hex c ≡ true) ↔ IsHexDigit c
unfolding is_hex
is_hex_iff c = (λ h. ground arith, λ h. ground arith)

all-is_hex_iff : (s : Text) → (all is_hex s ≡ true) ↔ All IsHexDigit s
unfolding all
all-is_hex_iff [] = (λ h. tt, λ h. refl)
all-is_hex_iff (c ∷ s) = (
  (λ h. elim (Bool-cases (is_hex c)) [
    | inl e ↦ ((is_hex_iff c).0 e, (all-is_hex_iff s).0 (rw e at h))
    | inr e ↦ cc (rw e at h)
  ]),
  λ h. rw ((is_hex_iff c).1 h.0) ((all-is_hex_iff s).1 h.1),
)

matched_iff : (s : Text) → (matches_oid_pattern s ≡ true) ↔ IsOid s
unfolding matches_oid_pattern
matched_iff s = (
  (λ h. elim (Bool-cases (all is_hex s)) [
    | inl e ↦ ((all-is_hex_iff s).0 e, (==_iff (length s) 64).0 (rw e at h))
    | inr e ↦ cc (rw e at h)
  ]),
  λ h. rw ((all-is_hex_iff s).1 h.0) ((==_iff (length s) 64).1 h.1),
)

-- `NewOID` returns exactly for 64 characters that are each one of 0 to 9, A to F and a to f, and
-- then the OID is the text.
pub new_oid-eq-ok_iff : (s : Text) (o : Oid) → (new_oid s ≡ ok o) ↔ ((o.value ≡ s) × IsOid s)
unfolding new_oid
new_oid-eq-ok_iff s o = (
  (λ h. elim (Bool-cases (matches_oid_pattern s)) [
    | inl e ↦ (ap (λ (x : Oid). x.value) (sym (ok_inj (rw e at h))), (matched_iff s).0 e)
    | inr e ↦ cc (rw e at h)
  ]),
  λ h. rw ((matched_iff s).1 h.1) (ap (λ v. ok (record { value = v })) (sym h.0)),
)

-- An OID passes its own check again.
pub new_oid-value : (s : Text) (o : Oid) → new_oid s ≡ ok o → new_oid o.value ≡ ok o
unfolding new_oid
new_oid-value s o h = ground arith

pub new_size-value : (n : ℤ) (s : Size) → new_size n ≡ ok s → s.value ≡ n
unfolding new_size
new_size-value n s h = ground arith

-- The default is itself an allowed name, so that the outcome is always "sha256".
pub new_hash_algorithm-value :
    (s : Text) (h : HashAlgorithm) → new_hash_algorithm s ≡ ok h → h.value ≡ codes "sha256"
unfolding new_hash_algorithm
new_hash_algorithm-value s h e = ground (arith, text_eq_iff s (codes "sha256"), text_eq_iff s [])

pub is_ok-new_oid :
    (s : Text) → (is_ok (new_oid s) ≡ true) ↔ (new_oid s ≡ ok (record { value = s }))
unfolding new_oid
is_ok-new_oid s = (λ h. ground arith, λ h. ground arith)

pub is_ok-new_size :
    (n : ℤ) → (is_ok (new_size n) ≡ true) ↔ (new_size n ≡ ok (record { value = n }))
unfolding new_size
is_ok-new_size n = (λ h. ground arith, λ h. ground arith)

pub is_ok-new_hash_algorithm :
    (s : Text) → (is_ok (new_hash_algorithm s) ≡ true) ↔ ((s ≡ []) ⊎ (s ≡ codes "sha256"))
unfolding new_hash_algorithm
is_ok-new_hash_algorithm s = (
  (λ h. ground (arith, text_eq_iff s [], text_eq_iff s (codes "sha256"))),
  λ h. ground (arith, text_eq_iff s [], text_eq_iff s (codes "sha256")),
)

-- The checks accept what they have accepted, and return it again.
pub new_hash_algorithm_idem :
    (s : Text) (h : HashAlgorithm) → new_hash_algorithm s ≡ ok h → new_hash_algorithm h.value ≡ ok h
unfolding new_hash_algorithm
new_hash_algorithm_idem s h e = ground (arith, text_eq_iff s (codes "sha256"), text_eq_iff s [])

pub new_storage_key_idem :
    (s : Text) (k : StorageKey) → new_storage_key s ≡ ok k → new_storage_key k.value ≡ ok k
unfolding new_storage_key
new_storage_key_idem s k e = ground arith

pub new_size_idem : (n : ℤ) (s : Size) → new_size n ≡ ok s → new_size s.value ≡ ok s
unfolding new_size
new_size_idem n s e = ground arith
