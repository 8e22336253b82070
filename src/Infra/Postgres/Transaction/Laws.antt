-- ===== src/Infra/Postgres/Transaction/Laws.antt =====
-- A transaction takes place as a whole or not at all. `committed` is what other sessions see, and
-- `pending` what this one has written.
use cargohold.Exec.{err, ok}
use cargohold.Failure.{GoError, wrapped}
use cargohold.Infra.Postgres.Transaction.{TxOptions, TxOutcome, TxPool, panicked, returned}
use cargohold.Prelude.{ℕ, ◌≡◌, ◌⊎◌}

module _ {W S : Type 0} where
  -- What PostgreSQL does: nothing is seen before a commit, and a commit that failed took place as a
  -- whole or not at all, for the connection may be lost before its answer.
  pub record IsTransactional (pool : TxPool W) (committed pending : W → S) : Type 0 where
    pub begin-committed :
        (opts : TxOptions) (w : W) → committed (pool.begin_tx opts w).1 ≡ committed w
    pub begin-pending :
        (opts : TxOptions) (w : W)
        → (pool.begin_tx opts w).0 ≡ ok tt
        → pending (pool.begin_tx opts w).1 ≡ committed w
    pub rollback-committed : (w : W) → committed (pool.rollback w).1 ≡ committed w
    pub commit-ok : (w : W) → (pool.commit w).0 ≡ ok tt → committed (pool.commit w).1 ≡ pending w
    pub commit_failed :
        (w : W) (e : GoError)
        → (pool.commit w).0 ≡ err e
        → (committed (pool.commit w).1 ≡ committed w) ⊎ (committed (pool.commit w).1 ≡ pending w)

module _ {W S : Type 0} (pool : TxPool W) (committed pending : W → S)
    (tx : IsTransactional pool committed pending) (fn : W → TxOutcome × W)
    (inside : (w : W) → committed (fn w).1 ≡ committed w) where
  -- How a transaction ends. Each end but the first started from the world `v` of its beginning.
  pub data IsAtomic (opts : TxOptions) (w : W) : TxOutcome × W → Type 0 where
    -- It did not begin.
    not_begun :
        (e : GoError) (w' : W)
        → (pool.begin_tx opts w).0 ≡ err e
        → committed w' ≡ committed w
        → IsAtomic opts w (returned (err (wrapped "failed to begin transaction" e)), w')
    -- The function returned, and what it wrote is committed.
    all_of_it :
        (v w' : W)
        → pool.begin_tx opts w ≡ (ok tt, v)
        → pending v ≡ committed w
        → (fn v).0 ≡ returned (ok tt)
        → committed w' ≡ pending (fn v).1
        → IsAtomic opts w (returned (ok tt), w')
    -- The function returned and the commit failed: it took place or it did not.
    in_doubt :
        (v w' : W) (e : GoError)
        → pool.begin_tx opts w ≡ (ok tt, v)
        → (fn v).0 ≡ returned (ok tt)
        → (committed w' ≡ committed w) ⊎ (committed w' ≡ pending (fn v).1)
        → IsAtomic opts w (returned (err (wrapped "commit failed" e)), w')
    -- The function failed, the transaction was rolled back, and the caller gets an error: that of the
    -- function where the rollback succeeded.
    failed :
        (v u w' : W) (e e' : GoError)
        → pool.begin_tx opts w ≡ (ok tt, v)
        → fn v ≡ (returned (err e), u)
        → w' ≡ (pool.rollback u).1
        → ((pool.rollback u).0 ≡ ok tt → e' ≡ e)
        → committed w' ≡ committed w
        → IsAtomic opts w (returned (err e'), w')
    -- The function panicked, the transaction was rolled back, and the panic goes on.
    panic :
        (v u w' : W) (p : ℕ)
        → pool.begin_tx opts w ≡ (ok tt, v)
        → fn v ≡ (panicked p, u)
        → w' ≡ (pool.rollback u).1
        → committed w' ≡ committed w
        → IsAtomic opts w (panicked p, w')
