-- ===== src/Infra/Postgres/Transaction.antt =====
-- internal/infrastructure/postgres/transaction.go. A function may also panic; what it panics with
-- is a number.
pub mod Laws
use cargohold.Exec.{Exec, Result, err, map_err, ok, on_error}
use cargohold.Failure.{GoError, wrapped}
use cargohold.Prelude.{ℕ}

pub data TxOutcome : Type 0 where
  returned : Result (Unit {0}) → TxOutcome
  panicked : ℕ → TxOutcome

-- pgx.TxOptions, at its isolation level
pub data TxOptions : Type 0 where
  default_tx read_committed repeatable_read serializable : TxOptions

-- TxPoolInterface and pgx.Tx: the transaction that was begun is part of the state.
pub record TxPool (W : Type 0) : Type 0 where
  pub begin_tx : TxOptions → Exec W (Unit {0})
  pub commit : Exec W (Unit {0})
  pub rollback : Exec W (Unit {0})

module _ {W : Type 0} (pool : TxPool W) where
  -- TransactionManager.BeginTx
  unfoldable pub begin_transaction : TxOptions → Exec W (Unit {0})
  begin_transaction opts = on_error (wrapped "failed to begin transaction") (pool.begin_tx opts)

  -- the error that is left after a rollback; the original one is only printed
  unfoldable pub rolled_back : GoError → Result (Unit {0}) → Result (Unit {0})
  rolled_back e (ok u) = err e
  rolled_back e (err rb) = err (wrapped "rollback failed" rb)

  unfoldable pub finish : TxOutcome × W → TxOutcome × W
  unfolding rolled_back
  finish (panicked r, w) = (panicked r, (pool.rollback w).1)
  finish (returned (err e), w) = let (rb, w') = pool.rollback w in (returned (rolled_back e rb), w')
  finish (returned (ok u), w) =
      let (done, w') = pool.commit w in (returned (map_err (wrapped "commit failed") done), w')

  begun : (W → TxOutcome × W) → Result (Unit {0}) × W → TxOutcome × W
  unfolding finish
  begun fn (err e, w) = (returned (err e), w)
  begun fn (ok u, w) = finish (fn w)

  unfoldable pub with_transaction : TxOptions → (W → TxOutcome × W) → W → TxOutcome × W
  unfolding begun begin_transaction
  with_transaction opts fn w = begun fn (begin_transaction opts w)
