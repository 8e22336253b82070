-- ===== src/Prelude/Text/Split.antt =====
-- strings.Split with a separator of one byte, and joining again.
use Prim.Native.Nat.{ℕ}
use mathlib.Core.Path.{◌≡◌, refl}
use mathlib.Core.Logic.{◌≢◌, inl, inr}
use mathlib.Core.List.{List, [], ◌∷◌, ◌++◌, append_assoc, append-nil}
use native.Mathlib.Omega.{arith}
use cargohold.Prelude.Tests.{◌==◌, if◌then◌else◌, Bool-cases}
use cargohold.Prelude.Lists.{All, All-append}

-- `cur` is the part that is being read.
split_from : ℕ → List ℕ → List ℕ → List (List ℕ)
split_from sep cur [] = cur ∷ []
split_from sep cur (c ∷ s) =
    let closed = split_from sep [] s in
    let longer = split_from sep (cur ++ c ∷ []) s in if c == sep then cur ∷ closed else longer

unfoldable pub split : List ℕ → ℕ → List (List ℕ)
unfolding split_from
split s sep = split_from sep [] s

-- strings.Join
unfoldable pub join : List (List ℕ) → ℕ → List ℕ
join [] sep = []
join (p ∷ []) sep = p
join (p ∷ q ∷ ps) sep = p ++ sep ∷ join (q ∷ ps) sep

-- The byte does not occur.
abbrev pub Lacks : ℕ → List ℕ → Type 0
Lacks sep s = All (λ c. c ≢ sep) s

All-concat : (sep : ℕ) (s : List ℕ) (c : ℕ) → Lacks sep s → c ≢ sep → Lacks sep (s ++ c ∷ [])
All-concat sep s c h k = All-append (λ b. b ≢ sep) s (c ∷ []) h (k, tt)

split_from-Lacks : (sep : ℕ) (cur s : List ℕ) → Lacks sep s → split_from sep cur s ≡ (cur ++ s) ∷ []
unfolding split_from
split_from-Lacks sep cur [] h = rw append-nil
split_from-Lacks sep cur (c ∷ s) (k, h) =
    ground (arith, split_from-Lacks sep (cur ++ c ∷ []) s h, append_assoc cur (c ∷ []) s)

split_from-append :
    (sep : ℕ) (cur s t : List ℕ)
    → Lacks sep s
    → split_from sep cur (s ++ sep ∷ t) ≡ (cur ++ s) ∷ split_from sep [] t
unfolding split_from
split_from-append sep cur [] t h = ground (arith, append-nil cur)
split_from-append sep cur (c ∷ s) t (k, h) =
    ground (arith, split_from-append sep (cur ++ c ∷ []) s t h, append_assoc cur (c ∷ []) s)

-- A text without the separator is one part.
pub split-Lacks : (sep : ℕ) (s : List ℕ) → Lacks sep s → split s sep ≡ s ∷ []
unfolding split
split-Lacks sep s h = split_from-Lacks sep [] s h

-- What stands before the first separator is the first part.
pub split-append :
    (sep : ℕ) (s t : List ℕ) → Lacks sep s → split (s ++ sep ∷ t) sep ≡ s ∷ split t sep
unfolding split
split-append sep s t h = split_from-append sep [] s t h

split_from-All : (sep : ℕ) (cur s : List ℕ) → Lacks sep cur → All (Lacks sep) (split_from sep cur s)
unfolding split_from
split_from-All sep cur [] h = (h, tt)
split_from-All sep cur (c ∷ s) h = ground (
  arith,
  split_from-All sep [] s tt,
  split_from-All sep (cur ++ c ∷ []) s,
  All-concat sep cur c h,
)

-- No part holds the separator.
pub split-All : (s : List ℕ) (sep : ℕ) → All (Lacks sep) (split s sep)
unfolding split
split-All s sep = split_from-All sep [] s tt

split_from-cons :
    (sep : ℕ) (cur s : List ℕ)
    → (p : List ℕ) × (ps : List (List ℕ)) × (split_from sep cur s ≡ p ∷ ps)
unfolding split_from
split_from-cons sep cur [] = (cur, [], refl)
split_from-cons sep cur (c ∷ s) = elim (Bool-cases (c == sep)) [
  | inl e ↦ (cur, split_from sep [] s, rw e)
  | inr e ↦ rw e (split_from-cons sep (cur ++ c ∷ []) s)
]

join-split_from : (sep : ℕ) (cur s : List ℕ) → join (split_from sep cur s) sep ≡ cur ++ s
unfolding split_from join
join-split_from sep cur [] = rw append-nil
join-split_from sep cur (c ∷ s) =
    let (p, ps, e) = split_from-cons sep [] s in
    ground (
      arith,
      e,
      join-split_from sep [] s,
      join-split_from sep (cur ++ c ∷ []) s,
      append_assoc cur (c ∷ []) s,
    )

-- Joining the parts gives the text back.
pub join-split : (s : List ℕ) (sep : ℕ) → join (split s sep) sep ≡ s
unfolding split
join-split s sep = join-split_from sep [] s

-- The first separator cuts a text in one way only.
pub append_injective :
    (sep : ℕ) (s t s' t' : List ℕ)
    → Lacks sep s
    → Lacks sep s'
    → s ++ sep ∷ t ≡ s' ++ sep ∷ t'
    → (s ≡ s') × (t ≡ t')
append_injective sep [] t [] t' h h' e = (refl, cc e)
append_injective sep [] t (c ∷ s') t' h h' e = absurd (h'.0 (cc e))
append_injective sep (c ∷ s) t [] t' h h' e = absurd (h.0 (cc e))
append_injective sep (c ∷ s) t (c' ∷ s') t' h h' e =
    let (es, et) = append_injective sep s t s' t' h.1 h'.1 (cc e) in (cc (e, es), et)
