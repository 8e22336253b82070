-- ===== src/Infra/Postgres/Allowed/Laws.antt =====
-- The listed repositories and their names.
use mathlib.Core.Path.{ap₂}
use cargohold.Domain.Repository.{AllowedRepository, full_name, new_allowed_repository_from_string}
use cargohold.Domain.Repository.Laws.{new_allowed_repository_from_string-name}
use cargohold.Exec.{Result, err, ok}
use cargohold.Exec.Keeps.{bind_returned, lift_returned, ok_inj, then_ok-eq-ok}
use cargohold.Failure.{GoError}
use cargohold.Infra.Postgres.{Pool, Rows}
use cargohold.Infra.Postgres.Allowed.{find_all, list_all, parse_repositories, scan_rows}
use cargohold.Prelude.{List, Option, [], ap, map, none, refl, some, sym, ◌∙◌, ◌∷◌, ◌≡◌}
use cargohold.Prelude.Text.{Text}

-- The names that were scanned are all of the rows, in order.
scan_rows-eq-ok :
    (rows : List (Result Text)) (failed : Option GoError) (names : List Text)
    → scan_rows rows failed ≡ ok names
    → (rows ≡ map ok names) × (failed ≡ none)
unfolding scan_rows
scan_rows-eq-ok [] none names h = (ap (map ok) (ok_inj h), refl)
scan_rows-eq-ok [] (some e) names h = cc h
scan_rows-eq-ok (err e ∷ rows) failed names h = cc h
scan_rows-eq-ok (ok repo ∷ rows) failed names h =
    let (rest, scanned, is) = then_ok-eq-ok (scan_rows rows failed) _ h in
    let (same, none_failed) = scan_rows-eq-ok rows failed rest scanned in
    (ap (λ (l : List (Result Text)). ok repo ∷ l) same ∙ ap (map ok) (ok_inj is), none_failed)

abbrev names_of : List AllowedRepository → List Text
names_of repos = map (λ (a : AllowedRepository). full_name a.identifier) repos

parse_repositories-names :
    (names : List Text) (repos : List AllowedRepository)
    → parse_repositories names ≡ ok repos
    → names_of repos ≡ names
unfolding parse_repositories
parse_repositories-names [] repos h = ap names_of (sym (ok_inj h))
parse_repositories-names (s ∷ names) repos h =
    let (a, made, h) = then_ok-eq-ok (new_allowed_repository_from_string s) _ h in
    let (rest, parsed, is) = then_ok-eq-ok (parse_repositories names) _ h in
    ap names_of (sym (ok_inj is))
    ∙ ap₂ (λ n (l : List Text). n ∷ l) (new_allowed_repository_from_string-name s a made)
        (parse_repositories-names names rest parsed)

module _ {W : Type 0} (pool : Pool W) where
  -- A list that was returned is the table's: every row was scanned, the iteration met no error, and
  -- the names of the repositories are those of the rows, in order.
  pub list_all-names :
      (w w' : W) (repos : List AllowedRepository)
      → list_all pool w ≡ (ok repos, w')
      → (rows : Rows) × ((pool.repository_rows w).0 ≡ ok rows)
        × (rows.failed ≡ none)
        × (rows.scans ≡ map ok (names_of repos))
  unfolding list_all find_all
  list_all-names w w' repos h =
      let (names, v, found, h) = bind_returned _ _ w w' repos h in
      let (rows, u, queried, g) = bind_returned _ _ w v names found in
      let (all_scanned, none_failed) =
        scan_rows-eq-ok rows.scans rows.failed names (lift_returned _ u v names g).0 in
      let same = parse_repositories-names names repos (lift_returned _ v w' repos h).0 in
      (
        rows,
        ap (λ (z : Result Rows × W). z.0) queried,
        none_failed,
        all_scanned ∙ ap (map ok) (sym same),
      )
