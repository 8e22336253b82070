-- ===== src/Exec/Read.antt =====
-- Reading a body up to a limit, as the handlers and the key fetcher do with io.LimitReader.
use mathlib.Core.Path.{subst}
use cargohold.Exec.{Result, err, ok}
use cargohold.Exec.Keeps.{ok_inj}
use cargohold.Failure.{GoError}
use cargohold.Prelude.{
  Bool-cases, List, Option, [], arith, false, if◌then◌else◌, inl, inr, leb, length, none, refl,
  some, suc, sym, take, true, zero, ℕ, ◌<◌, ◌∷◌, ◌≡◌, ◌≤◌,
}
use cargohold.Prelude.Text.{Text}

-- io.ReadAll of io.LimitReader(body, limit)
unfoldable pub read_limited : ℕ → Text → Option GoError → Result Text
read_limited limit body broken =
    if leb limit (length body)
    then ok (take limit body)
    else (elim broken [ none ↦ ok body | some e ↦ err e ])

length-take : {A : Type 0} (n : ℕ) (l : List A) → length (take n l) ≤ n
length-take zero l = omega arith
length-take (suc n) [] = omega arith
length-take (suc n) (x ∷ l) = omega (arith, length-take n l)

not_leb : (n m : ℕ) → leb n m ≡ false → m ≤ n
not_leb n m h = ground arith

-- No more is read than the limit.
pub read_limited-length :
    (n : ℕ) (body : Text) (broken : Option GoError) (t : Text)
    → read_limited n body broken ≡ ok t
    → length t ≤ n
unfolding read_limited
read_limited-length n body broken t h = elim (Bool-cases (leb n (length body))) [
  | inl long ↦ subst (λ (x : Text). length x ≤ n) (ok_inj (rw long at h)) (length-take n body)
  | inr short ↦ go (not_leb n (length body) short) broken (rw short at h)
]
  where
    go :
        length body ≤ n
        → (o : Option GoError) → (elim o [ none ↦ ok body | some e ↦ err e ]) ≡ ok t
        → length t ≤ n
    go small none e = subst (λ (x : Text). length x ≤ n) (ok_inj e) small
    go small (some x) e = cc e

leb_le : (n m : ℕ) → leb n m ≡ true → n ≤ m
leb_le n m h = ground arith

length-take_all : {A : Type 0} (n : ℕ) (l : List A) → n ≤ length l → length (take n l) ≡ n
length-take_all zero l h = refl
length-take_all (suc n) [] h = omega (arith, h)
length-take_all (suc n) (x ∷ l) h = omega (arith, length-take_all n l (omega (arith, h)))

not_both : (n m : ℕ) → m ≡ n → m < n → ⊥
not_both n m e h = omega (arith, e, h)

-- What is shorter than the limit is the whole body.
pub read_limited-whole :
    (n : ℕ) (bytes : Text) (broken : Option GoError) (t : Text)
    → read_limited n bytes broken ≡ ok t
    → length t < n
    → t ≡ bytes
unfolding read_limited
read_limited-whole n bytes broken t h short = elim (Bool-cases (leb n (length bytes))) [
  | inl long ↦
      let is = ok_inj (rw long at h) in
      let full = length-take_all n bytes (leb_le n (length bytes) long) in
      absurd (
        not_both n (length (take n bytes)) full (subst (λ (x : Text). length x < n) (sym is) short))
  | inr less ↦ go broken (rw less at h)
]
  where
    go : (o : Option GoError) → (elim o [ none ↦ ok bytes | some e ↦ err e ]) ≡ ok t → t ≡ bytes
    go none e = sym (ok_inj e)
    go (some x) e = cc e
