-- ===== src/Exec.antt =====
-- Go functions with an `error` result, and methods that act on the world behind an interface: the
-- database, the cache, the object storage. What was done before an error stays done, so that the
-- world comes back beside the error too.
pub mod Keeps
pub mod Read
use cargohold.Failure.{GoError}
use cargohold.Prelude.{Bool, false, true}

pub data Result {ℓ} (A : Type ℓ) : Type ℓ where
  ok : A → Result A
  err : GoError → Result A

abbrev pub Exec {ℓ} : Type ℓ → Type ℓ → Type ℓ
Exec W A = W → Result A × W

-- if err != nil { return f(err) }
abbrev pub map_err {ℓ} : {A : Type ℓ} → (GoError → GoError) → Result A → Result A
map_err f (ok a) = ok a
map_err f (err e) = err (f e)

-- the two results of a pure function, in sequence
abbrev pub then_ok {ℓ κ} : {A : Type ℓ} {B : Type κ} → Result A → (A → Result B) → Result B
then_ok (ok a) f = f a
then_ok (err e) f = err e

-- if err != nil
abbrev pub is_ok {ℓ} : {A : Type ℓ} → Result A → Bool
is_ok (ok a) = true
is_ok (err e) = false

module _ {ℓ} {W A : Type ℓ} where
  unfoldable pub pure : A → Exec W A
  pure a w = (ok a, w)

  unfoldable pub raise : GoError → Exec W A
  raise e w = (err e, w)

  unfoldable pub lift : Result A → Exec W A
  lift r w = (r, w)

  unfoldable pub gets : (W → A) → Exec W A
  gets f w = (ok (f w), w)

  -- a method without an error result
  unfoldable pub always : (W → A × W) → Exec W A
  always m w = let (a, w') = m w in (ok a, w')

  -- The error comes back as a value, for code that looks at it.
  unfoldable pub attempt : Exec W A → Exec W (Result A)
  attempt m w = let (r, w') = m w in (ok r, w')

  -- return nil, fmt.Errorf("…: %w", err)
  unfoldable pub on_error : (GoError → GoError) → Exec W A → Exec W A
  on_error f m w = let (r, w') = m w in (map_err f r, w')

module _ {ℓ} {W A B : Type ℓ} where
  abbrev pub continue : Result A → (A → Exec W B) → Exec W B
  continue (ok a) f w = f a w
  continue (err e) f w = (err e, w)

  infixl 10 ◌>>=◌ ◌>>◌
  -- opening this opens the actions above too
  unfoldable pub ◌>>=◌ : Exec W A → (A → Exec W B) → Exec W B
  unfolding pure raise lift gets always attempt on_error
  ◌>>=◌ m f w = let (r, w') = m w in continue r f w'

  abbrev pub ◌>>◌ : Exec W A → Exec W B → Exec W B
  m >> n = m >>= λ _. n
