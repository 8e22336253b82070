-- ===== src/Exec/Keeps.antt =====
-- Inversion of a run that returned, and invariants of actions.
use mathlib.Core.Path.{ap₂}
use cargohold.Exec.{
  Exec, Result, always, attempt, continue, err, gets, lift, map_err, ok, on_error, pure, raise,
  then_ok, ◌>>=◌,
}
use cargohold.Failure.{GoError}
use cargohold.Prelude.{ap, inl, inr, refl, sym, ◌≡◌, ◌⊎◌}

pub ok_inj {ℓ} : {A : Type ℓ} {a b : A} → ok a ≡ ok b → a ≡ b
ok_inj h = cc h

pub err_inj {ℓ} : {A : Type ℓ} {a b : GoError} → Path (Result A) (err a) (err b) → a ≡ b
err_inj h = cc h

pub map_err-eq-ok {ℓ} :
    {A : Type ℓ} (f : GoError → GoError) (r : Result A) {a : A} → map_err f r ≡ ok a → r ≡ ok a
map_err-eq-ok f (ok b) h = h
map_err-eq-ok f (err e) h = cc

-- Both results of a sequence were values.
pub then_ok-eq-ok {ℓ κ} :
    {A : Type ℓ} {B : Type κ} (m : Result A) (f : A → Result B) {b : B}
    → then_ok m f ≡ ok b
    → (a : A) × (m ≡ ok a) × (f a ≡ ok b)
then_ok-eq-ok (ok a) f h = (a, refl, h)
then_ok-eq-ok (err e) f h = cc

pub Result-cases {ℓ} :
    {A : Type ℓ} (r : Result A) → ((a : A) × (r ≡ ok a)) ⊎ ((e : GoError) × (r ≡ err e))
Result-cases (ok a) = inl (a, refl)
Result-cases (err e) = inr (e, refl)

module _ {ℓ} {W A B : Type ℓ} where
  -- A sequence that returned: the first part returned, and so did the rest from where it stopped.
  pub bind_returned :
      (m : Exec W A) (f : A → Exec W B) (w w' : W) (b : B)
      → (m >>= f) w ≡ (ok b, w')
      → (a : A) × (v : W) × (m w ≡ (ok a, v)) × (f a v ≡ (ok b, w'))
  unfolding ◌>>=◌
  bind_returned m f w w' b h = go (m w) refl h
    where
      go :
          (r : Result A × W)
          → m w ≡ r
          → continue r.0 f r.1 ≡ (ok b, w')
          → (a : A) × (v : W) × (m w ≡ (ok a, v)) × (f a v ≡ (ok b, w'))
      go (ok a, v) e h = (a, v, e, h)
      go (err x, v) e h = cc h

module _ {ℓ} {W A : Type ℓ} where
  pub lift_returned :
      (r : Result A) (w w' : W) (a : A) → lift r w ≡ (ok a, w') → (r ≡ ok a) × (w' ≡ w)
  unfolding lift
  lift_returned r w w' a h =
      (ap (λ (p : Result A × W). p.0) h, sym (ap (λ (p : Result A × W). p.1) h))

  pub raise_returned : (e : GoError) (w w' : W) (a : A) → raise e w ≡ (ok a, w') → ⊥
  unfolding raise
  raise_returned e w w' a h = cc (ap (λ (p : Result A × W). p.0) h)

  pub pure_returned : (a b : A) (w w' : W) → pure a w ≡ (ok b, w') → (a ≡ b) × (w ≡ w')
  unfolding pure
  pure_returned a b w w' h =
      (cc (ap (λ (p : Result A × W). p.0) h), ap (λ (p : Result A × W). p.1) h)

  pub always_returned :
      (m : W → A × W) (a : A) (w w' : W) → always m w ≡ (ok a, w') → ((m w).0 ≡ a) × ((m w).1 ≡ w')
  unfolding always
  always_returned m a w w' h =
      (cc (ap (λ (p : Result A × W). p.0) h), ap (λ (p : Result A × W). p.1) h)

  pub on_error_returned :
      (f : GoError → GoError) (m : Exec W A) (a : A) (w w' : W)
      → on_error f m w ≡ (ok a, w')
      → m w ≡ (ok a, w')
  unfolding on_error
  on_error_returned f m a w w' h =
      let done = map_err-eq-ok f (m w).0 (ap (λ (p : Result A × W). p.0) h) in
      ap₂ (λ r u. (r, u)) done (ap (λ (p : Result A × W). p.1) h)

  pub attempt_returned :
      (m : Exec W A) (r : Result A) (w w' : W)
      → attempt m w ≡ (ok r, w')
      → ((m w).0 ≡ r) × ((m w).1 ≡ w')
  unfolding attempt
  attempt_returned m r w w' h = (
    ok_inj (ap (λ (p : Result (Result A) × W). p.0) h),
    ap (λ (p : Result (Result A) × W). p.1) h,
  )

-- `m` keeps `P`, whether it returns or fails.
pub record Keeps {ℓ} {W A : Type ℓ} (P : W → Type ℓ) (m : Exec W A) : Type ℓ where
  pub at : (w : W) → P w → P (m w).1

module _ {ℓ} {W A : Type ℓ} {P : W → Type ℓ} where
  pub Keeps-pure : (a : A) → Keeps P (pure a)
  unfolding pure
  Keeps-pure a = record { at = λ w h. h }

  pub Keeps-raise : (e : GoError) → Keeps P (raise {A = A} e)
  unfolding raise
  Keeps-raise e = record { at = λ w h. h }

  pub Keeps-lift : (r : Result A) → Keeps P (lift r)
  unfolding lift
  Keeps-lift r = record { at = λ w h. h }

  pub Keeps-always : (m : W → A × W) → ((w : W) → P w → P (m w).1) → Keeps P (always m)
  unfolding always
  Keeps-always m k = record { at = k }

  pub Keeps-gets : (f : W → A) → Keeps P (gets f)
  unfolding gets
  Keeps-gets f = record { at = λ w h. h }

  pub Keeps-attempt : {m : Exec W A} → Keeps P m → Keeps P (attempt m)
  unfolding attempt
  Keeps-attempt k = record { at = k.at }

  pub Keeps-on_error : (f : GoError → GoError) {m : Exec W A} → Keeps P m → Keeps P (on_error f m)
  unfolding on_error
  Keeps-on_error f k = record { at = k.at }

module _ {ℓ} {W A B : Type ℓ} {P : W → Type ℓ} where
  Keeps-continue :
      (r : Result A) (f : A → Exec W B)
      → ((a : A) → Keeps P (f a))
      → (w : W) → P w
      → P (continue r f w).1
  Keeps-continue (ok a) f kf w h = (kf a).at w h
  Keeps-continue (err e) f kf w h = h

  pub Keeps-bind :
      (m : Exec W A) (f : A → Exec W B) → Keeps P m → ((a : A) → Keeps P (f a)) → Keeps P (m >>= f)
  unfolding ◌>>=◌
  Keeps-bind m f km kf = record {
    at = λ w h. let (r, w') = m w in Keeps-continue r f kf w' (km.at w h);
  }

pub ruleset keeps_rules =
    (Keeps-pure, Keeps-raise, Keeps-lift, Keeps-gets, Keeps-attempt, Keeps-on_error, Keeps-bind)
