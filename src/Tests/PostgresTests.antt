-- ===== src/Tests/PostgresTests.antt =====
-- The repositories and the transactions of PostgreSQL, over a database in memory.
use cargohold.Domain.Object.{Time}
use cargohold.Domain.Oid.{new_hash_algorithm, new_oid}
use cargohold.Domain.Policy.{AccessPolicy, new_access_policy_id}
use cargohold.Domain.Repository.{full_name, new_repository_identifier}
use cargohold.Exec.{ok, on_error, ◌>>=◌}
use cargohold.Failure.{no_rows}
use cargohold.Infra.Postgres.{AccessPolicyRow}
use cargohold.Infra.Postgres.Objects.{find_object, insert_row, save_object}
use cargohold.Infra.Postgres.Policies.{
  access_policy_to_row, find_policy, find_policy_row, row_to_access_policy, save_policy,
  upsert_policy_row,
}
use cargohold.Infra.Postgres.Policies.Laws.{
  IsPolicyTable, IsSaved, IsUpserted, find_policy-save_policy,
}
use cargohold.Infra.Postgres.Transaction.{
  TxOutcome, TxPool, default_tx, panicked, returned, with_transaction,
}
use cargohold.Prelude.{Option, none, refl, some, ℕ, ◌≡◌}
use cargohold.Prelude.Text.{Text, text_eq}
use cargohold.Tests.Database.{Database, column_time, database_pool, empty_database, upserted}
use cargohold.Tests.DomainTests.{our_repository-IsIdentifier, waiting_object-IsObject}
use cargohold.Tests.Samples.{our_policy, our_repository, sample_oid, waiting_object}
use cargohold.Tests.WorldLaws.{answer-ok, set-same}

-- The repository at work: an object is inserted, found, and not inserted again.
abbrev with_object : Database
with_object = (save_object database_pool waiting_object empty_database).1

found_again : (find_object database_pool sample_oid with_object).0 ≡ ok waiting_object
unfolding find_object save_object insert_row ◌>>=◌ text_eq new_hash_algorithm
found_again = refl

upserted-row :
    (k r : Text) (t : Time) (o : Option AccessPolicyRow)
    → ((upserted k r t o).lfs_object_oid ≡ k)
      × ((upserted k r t o).repository ≡ r)
      × IsUpserted column_time o t (upserted k r t o)
upserted-row k r t none = (refl, refl, refl)
upserted-row k r t (some old) = (refl, refl, (refl, refl))

policy_table : IsPolicyTable database_pool (λ d k. d.policy_rows k)
policy_table = record {
  kept = column_time;
  select-ok = λ k d r h. answer-ok no_rows (d.policy_rows k) r h;
  upsert-rows = λ k r t d n h.
      let (under, owner, kept_fields) = upserted-row k r t (d.policy_rows k) in
      (upserted k r t (d.policy_rows k), set-same k _ d.policy_rows, under, owner, kept_fields);
}

abbrev with_policy : Database
with_policy = (save_policy database_pool our_policy empty_database).1

policy_saved : save_policy database_pool our_policy empty_database ≡ (ok tt, with_policy)
unfolding save_policy upsert_policy_row ◌>>=◌
policy_saved = refl

policy_found :
    find_policy database_pool sample_oid with_policy ≡ (ok (some our_policy), with_policy)
unfolding find_policy save_policy find_policy_row upsert_policy_row access_policy_to_row full_name
    row_to_access_policy new_access_policy_id new_oid new_repository_identifier ◌>>=◌ text_eq
policy_found = refl

find_policy-save_policy_example :
    (a : AccessPolicy) × (some our_policy ≡ some a)
    × IsSaved column_time our_policy our_repository none a
unfolding policy_table
find_policy-save_policy_example =
    find_policy-save_policy database_pool (λ d k. d.policy_rows k) policy_table our_policy
      our_repository empty_database with_policy with_policy (some our_policy)
      waiting_object-IsObject.hex our_repository-IsIdentifier refl policy_saved policy_found

-- What is committed, and what the transaction has written.
abbrev Ledger : Type 0
Ledger = ℕ × ℕ

abbrev ledger_pool : TxPool Ledger
ledger_pool = record {
  begin_tx = λ opts w. (ok tt, (w.0, w.0));
  commit = λ w. (ok tt, (w.1, w.1));
  rollback = λ w. (ok tt, (w.0, w.0));
}

-- a function that writes 7 and returns, and one that writes and panics
abbrev write_seven : Ledger → TxOutcome × Ledger
write_seven w = (returned (ok tt), (w.0, 7))

abbrev write_and_panic : Ledger → TxOutcome × Ledger
write_and_panic w = (panicked 1, (w.0, 7))

panic_rolls_back :
    with_transaction ledger_pool default_tx write_and_panic (3, 3) ≡ (panicked 1, (3, 3))
unfolding with_transaction on_error
panic_rolls_back = refl
