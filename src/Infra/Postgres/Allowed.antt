-- ===== src/Infra/Postgres/Allowed.antt =====
-- internal/infrastructure/postgres/repository_allowlist_dao.go and
-- repository_allowlist_repository.go. A nil repository is refused before the pool is asked; the
-- callers pass none.
pub mod Laws
use cargohold.Domain.Repository.{AllowedRepository, full_name, new_allowed_repository_from_string}
use cargohold.Exec.{Exec, Result, err, lift, ok, on_error, pure, then_ok, ◌>>=◌, ◌>>◌}
use cargohold.Failure.{GoError, infra_not_found}
use cargohold.Infra.Allowlist.{add, is_allowed, list, remove}
use cargohold.Infra.Postgres.{Pool, affected, delete_repository, insert_repository, row_error}
use cargohold.Prelude.{Bool, List, Option, [], none, some, ◌∷◌}
use cargohold.Prelude.Text.{Text}
use cargohold.Usecase.Auth.{RepositoryAllowlist}

-- The rows up to the first that cannot be scanned, then the error of the iteration.
unfoldable pub scan_rows : List (Result Text) → Option GoError → Result (List Text)
scan_rows [] none = ok []
scan_rows [] (some e) = err e
scan_rows (err e ∷ rows) failed = err e
scan_rows (ok repo ∷ rows) failed =
    then_ok (scan_rows rows failed) λ repositories. ok (repo ∷ repositories)

-- the loop of List
unfoldable pub parse_repositories : List Text → Result (List AllowedRepository)
unfolding new_allowed_repository_from_string
parse_repositories [] = ok []
parse_repositories (repo_str ∷ repo_strings) =
    then_ok (new_allowed_repository_from_string repo_str)
      λ repo. then_ok (parse_repositories repo_strings) λ repos. ok (repo ∷ repos)

module _ {W : Type 0} (pool : Pool W) where
  -- RepositoryAllowlistDAO
  unfoldable pub delete_row : Text → Exec W (Unit {0})
  unfolding affected
  delete_row repository = do n ← pool.exec (delete_repository repository); affected n

  unfoldable pub find_all : Exec W (List Text)
  unfolding scan_rows
  find_all = do rows ← pool.repository_rows; lift (scan_rows rows.scans rows.failed)

  -- RepositoryAllowlistRepositoryImpl
  unfoldable pub is_listed : AllowedRepository → Exec W Bool
  unfolding full_name
  is_listed repository = pool.repository_exists (full_name repository.identifier)

  unfoldable pub add_listed : AllowedRepository → Exec W (Unit {0})
  unfolding full_name
  add_listed repository = do
    pool.exec (insert_repository (full_name repository.identifier))
    pure tt

  unfoldable pub remove_listed : AllowedRepository → Exec W (Unit {0})
  unfolding delete_row row_error full_name
  remove_listed repository =
      on_error (row_error infra_not_found) (delete_row (full_name repository.identifier))

  unfoldable pub list_all : Exec W (List AllowedRepository)
  unfolding find_all parse_repositories
  list_all = do repo_strings ← find_all; lift (parse_repositories repo_strings)

  unfoldable pub repository_allowlist : RepositoryAllowlist W
  unfolding is_listed add_listed remove_listed list_all
  repository_allowlist = record {
    is_allowed = is_listed;
    add = add_listed;
    remove = remove_listed;
    list = list_all;
  }
