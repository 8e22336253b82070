-- ===== src/Tests/Database.antt =====
-- A database in memory, which keeps the promises that the theorems take.
use Prim.Native.Nat.{◌-◌, ◌%◌}
use mathlib.Core.Path.{subst}
use cargohold.Domain.Object.{Time}
use cargohold.Exec.{Exec, err, is_ok, ok}
use cargohold.Exec.Keeps.{err_inj, ok_inj}
use cargohold.Failure.{GoError, is_error, no_rows, not_found, plain}
use cargohold.Infra.Caching.Laws.{View}
use cargohold.Infra.Postgres.{
  AccessPolicyRow, LfsObjectRow, Pool, Statement, delete_policy, delete_repository, insert_object,
  insert_repository, update_object, upsert_policy,
}
use cargohold.Infra.Postgres.Objects.Store.{IsObjectTable, assign, stamped}
use cargohold.Prelude.{
  Bool, Option, [], ap, arith, false, inl, none, refl, some, some_inj, sym, ℕ, ◌≡◌, ◌≢◌,
}
use cargohold.Prelude.Int.{pos, ℤ}
use cargohold.Prelude.Text.{Text}
use cargohold.Tests.World.{answer, set}
use cargohold.Tests.WorldLaws.{answer-err, answer-ok, set-other, set-same}

pub record Database : Type 0 where
  pub object_rows : Text → Option LfsObjectRow
  pub policy_rows : Text → Option AccessPolicyRow

abbrev pub empty_database : Database
empty_database = record { object_rows = λ k. none; policy_rows = λ k. none }

-- The columns of this database keep a time as a multiple of ten, downwards.
abbrev pub column_time : Time → Time
column_time t = t - t % 10

-- The row under a key has this key.
abbrev at_key : Text → Option LfsObjectRow → Option LfsObjectRow
at_key k none = none
at_key k (some r) = some (record r { oid = k })

abbrev pub rows_of : View Database LfsObjectRow
rows_of d k = at_key k (d.object_rows k)

abbrev insert_if_absent : LfsObjectRow → Option LfsObjectRow → Exec Database ℕ
insert_if_absent r (some old) d = (err (plain "duplicate key"), d)
insert_if_absent r none d =
    (ok 1, record d { object_rows = set r.oid (stamped column_time r) d.object_rows })

abbrev update_if_present :
    Text → ℤ → Text → Text → Bool → Time → Option LfsObjectRow → Exec Database ℕ
update_if_present k n h s u t none d = (ok 0, d)
update_if_present k n h s u t (some r) d = (
  ok 1,
  record d {
    object_rows =
        set k
          (record r {
            size = n;
            hash_algo = h;
            storage_key = s;
            uploaded = u;
            updated_at = column_time t;
          })
          d.object_rows;
  },
)

abbrev pub upserted : Text → Text → Time → Option AccessPolicyRow → AccessPolicyRow
upserted k r t none = record {
  id = pos 1;
  lfs_object_oid = k;
  repository = r;
  created_at = column_time t;
}
upserted k r t (some old) = record old { lfs_object_oid = k; repository = r }

abbrev run : Statement → Exec Database ℕ
run (insert_object r) d = insert_if_absent r (rows_of d r.oid) d
run (update_object k n h s u t) d = update_if_present k n h s u t (rows_of d k) d
run (upsert_policy k r t) d =
    (ok 1, record d { policy_rows = set k (upserted k r t (d.policy_rows k)) d.policy_rows })
run _ d = (ok 0, d)

abbrev pub database_pool : Pool Database
database_pool = record {
  exec = run;
  object_row = λ k d. (answer no_rows (rows_of d k), d);
  object_exists = λ k d. (ok (is_ok (answer no_rows (rows_of d k))), d);
  policy_row = λ k d. (answer no_rows (d.policy_rows k), d);
  repository_exists = λ k d. (ok false, d);
  repository_rows = λ d. (ok (record { scans = []; failed = none }), d);
}

no_rows-not_found :
    (o : Option LfsObjectRow) (e : GoError)
    → answer no_rows o ≡ err e
    → is_error e not_found ≡ false
unfolding is_error
no_rows-not_found none e h = subst (λ x. is_error x not_found ≡ false) (err_inj h) refl
no_rows-not_found (some r) e h = cc h

at_key-keyed :
    (k : Text) (o : Option LfsObjectRow) (r : LfsObjectRow) → at_key k o ≡ some r → r.oid ≡ k
at_key-keyed k none r h = cc h
at_key-keyed k (some q) r h = ap (λ (x : LfsObjectRow). x.oid) (sym (some_inj h))

-- by the row that is found
insert-done :
    (r : LfsObjectRow) (d : Database) (o : Option LfsObjectRow) (n : ℕ)
    → (insert_if_absent r o d).0 ≡ ok n
    → rows_of (insert_if_absent r o d).1 r.oid ≡ some (stamped column_time r)
insert-done r d (some old) n h = cc h
insert-done r d none n h = rw (set-same r.oid (stamped column_time r) d.object_rows) refl

insert-elsewhere :
    (r : LfsObjectRow) (d : Database) (o : Option LfsObjectRow) (j : Text)
    → r.oid ≢ j
    → rows_of (insert_if_absent r o d).1 j ≡ rows_of d j
insert-elsewhere r d (some old) j h = refl
insert-elsewhere r d none j h = rw (set-other r.oid j (stamped column_time r) d.object_rows h) refl

update-elsewhere :
    (k : Text) (n : ℤ) (h s : Text) (u : Bool) (t : Time) (d : Database) (o : Option LfsObjectRow)
    (j : Text)
    → k ≢ j
    → rows_of (update_if_present k n h s u t o d).1 j ≡ rows_of d j
update-elsewhere k n h s u t d none j e = refl
update-elsewhere k n h s u t d (some r) j e = rw (set-other k j _ d.object_rows e) refl

update-done :
    (k : Text) (n : ℤ) (h s : Text) (u : Bool) (t : Time) (d : Database) (o : Option LfsObjectRow)
    → rows_of d k ≡ o
    → rows_of (update_if_present k n h s u t o d).1 k ≡ assign n h s u (column_time t) o
update-done k n h s u t d none e = e
update-done k n h s u t d (some r) e =
    rw
      (set-same k
        (record r {
          size = n;
          hash_algo = h;
          storage_key = s;
          uploaded = u;
          updated_at = column_time t;
        })
        d.object_rows)
      (ap
        (λ i. some (record r {
          oid = i;
          size = n;
          hash_algo = h;
          storage_key = s;
          uploaded = u;
          updated_at = column_time t;
        }))
        (sym (at_key-keyed k (d.object_rows k) r e)))

differ : (a b : ℕ) → a ≡ 1 → b ≡ 0 → a ≡ b → ⊥
differ a b p q r = omega (arith, p, q, r)

update-absent :
    (k : Text) (n : ℤ) (h s : Text) (u : Bool) (t : Time) (d : Database) (o : Option LfsObjectRow)
    → (update_if_present k n h s u t o d).0 ≡ ok 0
    → o ≡ none
update-absent k n h s u t d none e = refl
update-absent k n h s u t d (some r) e = absurd (differ 1 0 refl refl (ok_inj e))

-- A statement that failed is an insertion over a row.
run_failed :
    (c : Statement) (d : Database) (e : GoError) (j : Text)
    → (run c d).0 ≡ err e
    → rows_of (run c d).1 j ≡ rows_of d j
run_failed (insert_object r) d e j h = go (rows_of d r.oid) h
  where
    go :
        (o : Option LfsObjectRow)
        → (insert_if_absent r o d).0 ≡ err e
        → rows_of (insert_if_absent r o d).1 j ≡ rows_of d j
    go none h = cc h
    go (some old) h = refl
run_failed (update_object k n h s u t) d e j f = go (rows_of d k) f
  where
    go :
        (o : Option LfsObjectRow)
        → (update_if_present k n h s u t o d).0 ≡ err e
        → rows_of (update_if_present k n h s u t o d).1 j ≡ rows_of d j
    go none f = cc
    go (some r) f = cc
run_failed (upsert_policy k r t) d e j h = cc
run_failed (delete_policy k) d e j h = cc
run_failed (insert_repository r) d e j h = cc
run_failed (delete_repository r) d e j h = cc

pub database-IsObjectTable : IsObjectTable database_pool rows_of
database-IsObjectTable = record {
  kept = column_time;
  select-rows = λ k w j. refl;
  select-ok = λ k w r h. answer-ok no_rows (rows_of w k) r h;
  select_none = λ k w e h t. answer-err no_rows (rows_of w k) e h;
  select_foreign = λ k w e h. no_rows-not_found (rows_of w k) e h;
  keyed = λ w k r h. at_key-keyed k (w.object_rows k) r h;
  insert-rows = λ r w n h. insert-done r w (rows_of w r.oid) n h;
  insert-other = λ r w j h. insert-elsewhere r w (rows_of w r.oid) j h;
  update-rows = λ k n h s u t w m e. update-done k n h s u t w (rows_of w k) refl;
  update_none = λ k n h s u t w e. update-absent k n h s u t w (rows_of w k) e;
  update-other = λ k n h s u t w j e. update-elsewhere k n h s u t w (rows_of w k) j e;
  insert_failed = λ r w e h. inl (run_failed (insert_object r) w e r.oid h);
  update_failed = λ k n h s u t w e f. inl (run_failed (update_object k n h s u t) w e k f);
}
