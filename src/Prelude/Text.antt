-- ===== src/Prelude/Text.antt =====
-- Go strings as lists of bytes, with the functions of package `strings` that the program calls.
-- Every separator and every character class of the program is ASCII, so that bytes and characters
-- give the same answers.
pub mod Split
use Prim.Native.Nat.{ℕ, suc}
use Prim.Native.Char.{code}
use Prim.Native.String.{String}
use mathlib.Core.Path.{◌≡◌, refl, sym, ◌∙◌}
use mathlib.Core.Logic.{◌↔◌, ◌⊎◌, inl, inr, ◌≢◌}
use mathlib.Core.Bool.{Bool, true, false, ◌&&◌}
use mathlib.Core.List.{List, [], ◌∷◌, ◌++◌}
use native.Mathlib.Omega.{arith}
use cargohold.Prelude.Tests.{Bool-cases, ◌==◌, if◌then◌else◌}

abbrev pub Text : Type 0
Text = List ℕ

-- A literal: its bytes, for ASCII.
abbrev pub codes : String → Text
codes String.[] = []
codes (String.◌∷◌ c s) = code c ∷ codes s

unfoldable pub text_eq : Text → Text → Bool
text_eq [] [] = true
text_eq (a ∷ s) (b ∷ t) = (a == b) && text_eq s t
text_eq _ _ = false

pub text_eq_iff : (s t : Text) → (text_eq s t ≡ true) ↔ (s ≡ t)
unfolding text_eq
text_eq_iff [] [] = ground arith
text_eq_iff [] (b ∷ t) = ground arith
text_eq_iff (a ∷ s) [] = ground arith
text_eq_iff (a ∷ s) (b ∷ t) = ground (arith, text_eq_iff s t)

pub text_eq_refl : (s : Text) → text_eq s s ≡ true
text_eq_refl s = (text_eq_iff s s).1 refl

pub Text-cases : (s t : Text) → (s ≡ t) ⊎ (s ≢ t)
Text-cases s t = elim (Bool-cases (text_eq s t)) [
  | inl e ↦ inl ((text_eq_iff s t).0 e)
  | inr e ↦ inr (λ h. cc (sym e ∙ (text_eq_iff s t).1 h))
]

-- strings.HasPrefix
unfoldable pub has_prefix : Text → Text → Bool
has_prefix s [] = true
has_prefix [] (p ∷ prefix) = false
has_prefix (c ∷ s) (p ∷ prefix) = (c == p) && has_prefix s prefix

-- strings.Contains
unfoldable pub contains : Text → Text → Bool
unfolding has_prefix
contains [] sub = has_prefix [] sub
contains (c ∷ s) sub = if has_prefix (c ∷ s) sub then true else contains s sub

-- strings.TrimSuffix(s, c) for a suffix of one byte
unfoldable pub trim_suffix : Text → ℕ → Text
trim_suffix [] c = []
trim_suffix (a ∷ []) c = if a == c then [] else a ∷ []
trim_suffix (a ∷ b ∷ s) c = a ∷ trim_suffix (b ∷ s) c

pub append_cancel : (p s t : Text) → p ++ s ≡ p ++ t → s ≡ t
append_cancel [] s t h = h
append_cancel (a ∷ p) s t h = append_cancel p s t (cc h)
