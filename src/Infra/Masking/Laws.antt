-- ===== src/Infra/Masking/Laws.antt =====
-- Masking against what a log line shows: its leaves, each with the groups above it.
use mathlib.Core.Path.{ap₂, subst}
use cargohold.Infra.Masking.{
  Attr, Attrs, group_attr, has_key_inside, is_key, mask_all, mask_attrs, mask_value, more_attrs,
  no_attrs, redacted, text_attr,
}
use cargohold.Prelude.{
  Bool, Bool-cases, List, [], any, ap, arith, false, if_both, if◌then◌else◌, inl, inr, map, refl,
  sym, true, ◌++◌, ◌||◌, ◌∙◌, ◌∷◌, ◌≡◌,
}
use cargohold.Prelude.Text.{Text, contains, has_prefix, text_eq, text_eq_iff}

pub record Leaf : Type 0 where
  pub groups : List Text
  pub key : Text
  pub text : Text

unfoldable mutual
  pub leaves : List Text → Attr → List Leaf
  leaves path (text_attr key text) = record { groups = path; key = key; text = text } ∷ []
  leaves path (group_attr key attrs) = leaves_of_all (path ++ (key ∷ [])) attrs

  pub leaves_of_all : List Text → Attrs → List Leaf
  leaves_of_all path no_attrs = []
  leaves_of_all path (more_attrs a attrs) = leaves path a ++ leaves_of_all path attrs

has_prefix_self : (s : Text) → has_prefix s s ≡ true
unfolding has_prefix
has_prefix_self [] = refl
has_prefix_self (c ∷ s) = ground (arith, has_prefix_self s)

contains_self : (s : Text) → contains s s ≡ true
unfolding contains
contains_self [] = has_prefix_self []
contains_self (c ∷ s) = rw (has_prefix_self (c ∷ s)) refl

-- A key that is one of the sensitive ones also contains one.
is_key-contained :
    (keys : List Text) (key : Text) → is_key keys key ≡ true → has_key_inside keys key ≡ true
unfolding is_key has_key_inside
is_key-contained [] key h = h
is_key-contained (k ∷ keys) key h = elim (Bool-cases (text_eq k key)) [
  | inl same ↦
      rw (subst (λ x. contains key x ≡ true) (sym ((text_eq_iff k key).0 same)) (contains_self key))
        refl
  | inr differs ↦
      if_both (λ b. b ≡ true) (contains key k) refl (is_key-contained keys key (rw differs at h))
]

if_or : (b c : Bool) → (if b then true else c) ≡ b || c
if_or true c = refl
if_or false c = refl

has_key_inside-any :
    (keys : List Text) (key : Text) → has_key_inside keys key ≡ any (contains key) keys
unfolding has_key_inside any
has_key_inside-any [] key = refl
has_key_inside-any (k ∷ keys) key =
    if_or (contains key k) (has_key_inside keys key)
    ∙ ap (λ b. contains key k || b) (has_key_inside-any keys key)

map-append : {A B : Type 0} (f : A → B) (l m : List A) → map f (l ++ m) ≡ map f l ++ map f m
map-append f [] m = refl
map-append f (x ∷ l) m = ap (λ (r : List _). f x ∷ r) (map-append f l m)

module _ (to_lower : Text → Text) (sensitive_keys : List Text) where
  -- The text is replaced if the key, in lower case, contains a sensitive one.
  abbrev pub redact : Leaf → Leaf
  redact l =
      if any (contains (to_lower l.key)) sensitive_keys then record l { text = redacted } else l

  mask_value-leaves :
      (path : List Text) (key text : Text)
      → leaves path (mask_value to_lower sensitive_keys key text)
        ≡ redact (record { groups = path; key = key; text = text }) ∷ []
  unfolding mask_value leaves
  mask_value-leaves path key text =
      let inside = has_key_inside sensitive_keys (to_lower key) in
      let same = has_key_inside-any sensitive_keys (to_lower key) in
      elim (Bool-cases (is_key sensitive_keys (to_lower key))) [
        | inl exact ↦
            rw (exact, sym same ∙ is_key-contained sensitive_keys (to_lower key) exact) refl
        | inr differs ↦ elim (Bool-cases inside) [
          | inl within ↦ rw (differs, within, sym same ∙ within) refl
          | inr outside ↦ rw (differs, outside, sym same ∙ outside) refl
        ]
      ]

  mutual
    unfolding mask_attrs leaves

    leaves-mask :
        (path : List Text) (a : Attr)
        → leaves path (mask_attrs to_lower sensitive_keys a) ≡ map redact (leaves path a)
    leaves-mask path (text_attr key text) = mask_value-leaves path key text
    leaves-mask path (group_attr key attrs) = leaves-mask_all (path ++ (key ∷ [])) attrs

    leaves-mask_all :
        (path : List Text) (attrs : Attrs)
        → leaves_of_all path (mask_all to_lower sensitive_keys attrs)
          ≡ map redact (leaves_of_all path attrs)
    leaves-mask_all path no_attrs = refl
    leaves-mask_all path (more_attrs a attrs) =
        ap₂ (λ (l m : List Leaf). l ++ m) (leaves-mask path a) (leaves-mask_all path attrs)
        ∙ sym (map-append redact (leaves path a) (leaves_of_all path attrs))

-- Masking an attribute keeps every leaf in its place, under its groups and its key, and replaces the
-- text of exactly those leaves whose key, in lower case, contains one of the sensitive keys, however
-- deep they stand in groups.
pub leaves-mask_attrs :
    (to_lower : Text → Text) (sensitive_keys : List Text) (path : List Text) (a : Attr)
    → leaves path (mask_attrs to_lower sensitive_keys a)
      ≡ map (redact to_lower sensitive_keys) (leaves path a)
leaves-mask_attrs to_lower sensitive_keys path a = leaves-mask to_lower sensitive_keys path a
