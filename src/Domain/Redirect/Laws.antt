-- ===== src/Domain/Redirect/Laws.antt =====
-- The list of redirect URIs that the constructor accepts, and membership in it.
use cargohold.Domain.Redirect.{
  AllowedRedirectUris, ParsedUrl, allows_redirect, check_uri, new_allowed_redirect_uris,
  validate_uris,
}
use cargohold.Exec.{ok}
use cargohold.Exec.Keeps.{then_ok-eq-ok}
use cargohold.Prelude.{
  All, Bool-cases, List, Option, [], any, ap, append-nil, append_assoc, arith, inl, inr, none, refl,
  some, true, ◌++◌, ◌↔◌, ◌∙◌, ◌∷◌, ◌≡◌, ◌≢◌, ◌⊎◌,
}
use cargohold.Prelude.Text.{Text, text_eq, text_eq_iff}

module _ (parse : Text → Option ParsedUrl) where
  -- An absolute URI: it parses, and it has a scheme and a host.
  abbrev pub IsAbsolute : Text → Type 0
  IsAbsolute uri =
      (uri ≢ [])
      × ((url : ParsedUrl) × (parse uri ≡ some url) × (url.scheme ≢ []) × (url.host ≢ []))

  check_uri-IsAbsolute :
      (uri u : Text) (o : Option ParsedUrl)
      → parse uri ≡ o
      → uri ≢ []
      → check_uri parse uri o ≡ ok u
      → (u ≡ uri) × IsAbsolute uri
  unfolding check_uri
  check_uri-IsAbsolute uri u none e h k = cc k
  check_uri-IsAbsolute uri u (some url) e h k = (
    ground arith,
    (
      h,
      (
        url,
        e,
        ground (arith, text_eq_iff url.scheme [], text_eq_iff url.host []),
        ground (arith, text_eq_iff url.scheme [], text_eq_iff url.host []),
      ),
    ),
  )

  validate_uris-All :
      (validated uris out : List Text)
      → validate_uris parse validated uris ≡ ok out
      → (out ≡ validated ++ uris) × All IsAbsolute uris
  unfolding validate_uris
  validate_uris-All validated [] out h = (ground (arith, append-nil validated), tt)
  validate_uris-All validated (uri ∷ uris) out h = elim (Bool-cases (text_eq uri [])) [
    | inl e ↦ cc (rw e at h)
    | inr e ↦
        let (u, checked, rest) = then_ok-eq-ok (check_uri parse uri (parse uri)) _ (rw e at h) in
        let (same, absolute) =
          check_uri-IsAbsolute uri u (parse uri) refl (λ p. cc (e, (text_eq_iff uri []).1 p))
            checked in
        let (kept, others) = validate_uris-All (validated ++ u ∷ []) uris out rest in
        (
          kept ∙ (append_assoc validated (u ∷ []) uris ∙ ap (λ v. validated ++ v ∷ uris) same),
          (absolute, others),
        )
  ]

  -- An accepted list is kept as it was given, and holds absolute URIs only.
  pub new_allowed_redirect_uris-All :
      (uris : List Text) (a : AllowedRedirectUris)
      → new_allowed_redirect_uris parse uris ≡ ok a
      → (a.uris ≡ uris) × All IsAbsolute a.uris
  unfolding new_allowed_redirect_uris
  new_allowed_redirect_uris-All [] a h = cc h
  new_allowed_redirect_uris-All (uri ∷ uris) a h =
      let (v, validated, made) = then_ok-eq-ok (validate_uris parse [] (uri ∷ uris)) _ h in
      let (kept, absolute) = validate_uris-All [] (uri ∷ uris) v validated in
      let same : a.uris ≡ uri ∷ uris = cc (made, kept) in (same, rw same absolute)

abbrev pub IsListed : Text → List Text → Type 0
IsListed uri [] = ⊥
IsListed uri (u ∷ us) = (uri ≡ u) ⊎ IsListed uri us

any-IsListed :
    (uri : Text) (us : List Text) → (any (λ u. text_eq uri u) us ≡ true) ↔ IsListed uri us
unfolding any
any-IsListed uri [] = ground arith
any-IsListed uri (u ∷ us) = ground (arith, text_eq_iff uri u, any-IsListed uri us)

-- `Contains` answers true exactly for the members of the list.
pub allows_redirect_iff :
    (a : AllowedRedirectUris) (uri : Text) → (allows_redirect a uri ≡ true) ↔ IsListed uri a.uris
unfolding allows_redirect
allows_redirect_iff a uri = any-IsListed uri a.uris
