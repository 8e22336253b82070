-- ===== src/Infra/Postgres.antt =====
-- internal/infrastructure/postgres: the statements that the data access objects send, and the pool
-- that runs them. What PostgreSQL and pgx do with a statement is a parameter; what is relied on of
-- them is stated as laws in the children.
pub mod Objects
pub mod Policies
pub mod Allowed
pub mod Transaction
use cargohold.Domain.Object.{Time}
use cargohold.Exec.{Exec, Result, pure, raise}
use cargohold.Failure.{GoError, Sentinel, is_error, no_rows, sentinel}
use cargohold.Prelude.{Bool, List, Option, if◌then◌else◌, ℕ, ◌==◌}
use cargohold.Prelude.Int.{ℤ}
use cargohold.Prelude.Text.{Text}

-- postgres.LFSObjectRow
pub record LfsObjectRow : Type 0 where
  pub oid : Text
  pub size : ℤ
  pub hash_algo : Text
  pub storage_key : Text
  pub uploaded : Bool
  pub created_at : Time
  pub updated_at : Time

-- postgres.AccessPolicyRow
pub record AccessPolicyRow : Type 0 where
  pub id : ℤ
  pub lfs_object_oid : Text
  pub repository : Text
  pub created_at : Time

-- The statements that change rows, with their arguments in the order of the placeholders.
pub data Statement : Type 0 where
  -- INSERT INTO lfs_objects
  insert_object : LfsObjectRow → Statement
  -- UPDATE lfs_objects SET size, hash_algo, storage_key, uploaded, updated_at WHERE oid
  update_object : Text → ℤ → Text → Text → Bool → Time → Statement
  -- INSERT INTO lfs_object_access_policies … ON CONFLICT DO UPDATE SET repository
  upsert_policy : Text → Text → Time → Statement
  -- DELETE FROM lfs_object_access_policies WHERE lfs_object_oid
  delete_policy : Text → Statement
  -- INSERT INTO repository_allowlist … ON CONFLICT DO NOTHING
  insert_repository : Text → Statement
  -- DELETE FROM repository_allowlist WHERE repository
  delete_repository : Text → Statement

-- What rows.Next, rows.Scan and rows.Err yield, in order.
pub record Rows : Type 0 where
  pub scans : List (Result Text)
  pub failed : Option GoError

-- postgres.PoolInterface: `exec` answers RowsAffected, and each query is QueryRow with its Scan.
pub record Pool (W : Type 0) : Type 0 where
  pub exec : Statement → Exec W ℕ
  pub object_row : Text → Exec W LfsObjectRow
  pub object_exists : Text → Exec W Bool
  pub policy_row : Text → Exec W AccessPolicyRow
  pub repository_exists : Text → Exec W Bool
  pub repository_rows : Exec W Rows

-- errors.Is(err, pgx.ErrNoRows), answered with a sentinel
unfoldable pub row_error : Sentinel → GoError → GoError
unfolding is_error
row_error s e = if is_error e no_rows then sentinel s else e

-- result.RowsAffected() == 0
unfoldable pub affected : {W : Type 0} → ℕ → Exec W (Unit {0})
affected n = if n == 0 then raise (sentinel no_rows) else pure tt
