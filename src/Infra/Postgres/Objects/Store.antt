-- ===== src/Infra/Postgres/Objects/Store.antt =====
-- Reading objects from the table `lfs_objects`. What is asked of PostgreSQL and pgx: `oid` is the
-- primary key, a statement takes place as a whole or not at all, also where an error came back for
-- it, a column TIMESTAMP keeps of a time what `kept` says, such as its microseconds, and a scan
-- without a row fails with pgx.ErrNoRows.
-- the assignments of the UPDATE statement
use mathlib.Core.Path.{subst}
use cargohold.Domain.Object.{LfsObject, Time}
use cargohold.Domain.Oid.{Oid}
use cargohold.Exec.{Result, err, ok, ◌>>=◌}
use cargohold.Exec.Keeps.{Result-cases}
use cargohold.Failure.{GoError, is_error, no_rows, not_found}
use cargohold.Infra.Caching.Laws.{View}
use cargohold.Infra.Postgres.{
  LfsObjectRow, Pool, Statement, insert_object, row_error, update_object,
}
use cargohold.Infra.Postgres.Objects.{find_object, find_row, row_to_domain}
use cargohold.Prelude.{
  Bool, Bool-cases, Option, false, inl, inr, none, refl, some, sym, true, ℕ, ◌∙◌, ◌≡◌, ◌≢◌, ◌⊎◌,
}
use cargohold.Prelude.Int.{ℤ}
use cargohold.Prelude.Text.{Text}

abbrev pub assign : ℤ → Text → Text → Bool → Time → Option LfsObjectRow → Option LfsObjectRow
assign size hash_algo storage_key uploaded updated_at none = none
assign size hash_algo storage_key uploaded updated_at (some r) = some (record r {
  size = size;
  hash_algo = hash_algo;
  storage_key = storage_key;
  uploaded = uploaded;
  updated_at = updated_at;
})

-- the row that the INSERT statement leaves, where `kept` is what a column TIMESTAMP keeps of a time
abbrev pub stamped : (Time → Time) → LfsObjectRow → LfsObjectRow
stamped kept r = record r { created_at = kept r.created_at; updated_at = kept r.updated_at }

abbrev pub to_option : Result LfsObject → Option LfsObject
to_option (ok x) = some x
to_option (err e) = none

abbrev pub object_of : Option LfsObjectRow → Option LfsObject
object_of none = none
object_of (some r) = to_option (row_to_domain r)

-- The objects that the rows stand for.
abbrev pub objects_of : {W : Type 0} → View W LfsObjectRow → View W LfsObject
objects_of rows w k = object_of (rows w k)

to_option-eq-some : (r : Result LfsObject) (x : LfsObject) → to_option r ≡ some x → r ≡ ok x
to_option-eq-some (ok y) x h = cc h
to_option-eq-some (err e) x h = cc h

pub object_of-eq-some :
    (o : Option LfsObjectRow) (x : LfsObject)
    → object_of o ≡ some x
    → (r : LfsObjectRow) × (o ≡ some r) × (row_to_domain r ≡ ok x)
object_of-eq-some none x h = cc h
object_of-eq-some (some r) x h = (r, refl, to_option-eq-some (row_to_domain r) x h)

module _ {W : Type 0} where
  pub record IsObjectTable (pool : Pool W) (rows : View W LfsObjectRow) : Type 0 where
    pub kept : Time → Time
    pub select-rows : (k : Text) (w : W) (j : Text) → rows (pool.object_row k w).1 j ≡ rows w j
    pub select-ok :
        (k : Text) (w : W) (r : LfsObjectRow) → (pool.object_row k w).0 ≡ ok r → rows w k ≡ some r
    pub select_none :
        (k : Text) (w : W) (e : GoError)
        → (pool.object_row k w).0 ≡ err e
        → is_error e no_rows ≡ true
        → rows w k ≡ none
    pub select_foreign :
        (k : Text) (w : W) (e : GoError)
        → (pool.object_row k w).0 ≡ err e
        → is_error e not_found ≡ false
    pub keyed : (w : W) (k : Text) (r : LfsObjectRow) → rows w k ≡ some r → r.oid ≡ k
    pub insert-rows :
        (r : LfsObjectRow) (w : W) (n : ℕ)
        → (pool.exec (insert_object r) w).0 ≡ ok n
        → rows (pool.exec (insert_object r) w).1 r.oid ≡ some (stamped kept r)
    pub insert_failed :
        (r : LfsObjectRow) (w : W) (e : GoError)
        → (pool.exec (insert_object r) w).0 ≡ err e
        → (rows (pool.exec (insert_object r) w).1 r.oid ≡ rows w r.oid)
          ⊎ (rows (pool.exec (insert_object r) w).1 r.oid ≡ some (stamped kept r))
    pub insert-other :
        (r : LfsObjectRow) (w : W) (j : Text)
        → r.oid ≢ j
        → rows (pool.exec (insert_object r) w).1 j ≡ rows w j
    pub update-rows :
        (k : Text) (n : ℤ) (h s : Text) (u : Bool) (t : Time) (w : W) (m : ℕ)
        → (pool.exec (update_object k n h s u t) w).0 ≡ ok m
        → rows (pool.exec (update_object k n h s u t) w).1 k ≡ assign n h s u (kept t) (rows w k)
    pub update_failed :
        (k : Text) (n : ℤ) (h s : Text) (u : Bool) (t : Time) (w : W) (e : GoError)
        → (pool.exec (update_object k n h s u t) w).0 ≡ err e
        → (rows (pool.exec (update_object k n h s u t) w).1 k ≡ rows w k)
          ⊎ (rows (pool.exec (update_object k n h s u t) w).1 k
              ≡ assign n h s u (kept t) (rows w k))
    pub update_none :
        (k : Text) (n : ℤ) (h s : Text) (u : Bool) (t : Time) (w : W)
        → (pool.exec (update_object k n h s u t) w).0 ≡ ok 0
        → rows w k ≡ none
    pub update-other :
        (k : Text) (n : ℤ) (h s : Text) (u : Bool) (t : Time) (w : W) (j : Text)
        → k ≢ j
        → rows (pool.exec (update_object k n h s u t) w).1 j ≡ rows w j

  -- What the pool does not touch, such as the entries of the cache.
  pub record Spares {A : Type 0} (pool : Pool W) (view : View W A) : Type 0 where
    pub select-view : (k : Text) (w : W) (j : Text) → view (pool.object_row k w).1 j ≡ view w j
    pub exec-view : (c : Statement) (w : W) (j : Text) → view (pool.exec c w).1 j ≡ view w j

module _ {W : Type 0} (pool : Pool W) (rows : View W LfsObjectRow)
    (table : IsObjectTable pool rows) where
  abbrev stored : View W LfsObject
  stored w k = objects_of rows w k

  abbrev asked : Oid → W → Result LfsObjectRow × W
  asked o w = pool.object_row o.value w

  -- A row as an object, or an error.
  find_object-cases :
      (o : Oid) (w : W)
      → ((r : LfsObjectRow) × ((asked o w).0 ≡ ok r)
          × (find_object pool o w ≡ (row_to_domain r, (asked o w).1)))
        ⊎ ((e : GoError) × ((asked o w).0 ≡ err e)
            × (find_object pool o w
                ≡ (err (row_error not_found (row_error no_rows e)), (asked o w).1)))
  unfolding find_object find_row ◌>>=◌
  find_object-cases o w = elim (Result-cases (asked o w).0) [
    | inl (r, e) ↦ inl (r, e, rw e)
    | inr (x, e) ↦ inr (x, e, rw e)
  ]

  row_error_found :
      (e : GoError)
      → is_error e not_found ≡ false
      → is_error (row_error not_found (row_error no_rows e)) not_found ≡ true
      → is_error e no_rows ≡ true
  unfolding row_error
  row_error_found e h t = elim (Bool-cases (is_error e no_rows)) [
    | inl x ↦ x
    | inr x ↦ cc (sym h ∙ (rw (x, x) at t))
  ]

  pub find_object-world : (o : Oid) (w : W) → (find_object pool o w).1 ≡ (asked o w).1
  find_object-world o w = elim (find_object-cases o w) [
    | inl (r, _, e) ↦ rw e refl
    | inr (x, _, e) ↦ rw e refl
  ]

  pub find_object-stored :
      (o : Oid) (w : W) (k : Text) → stored (find_object pool o w).1 k ≡ stored w k
  find_object-stored o w k = rw (find_object-world o w, table.select-rows o.value w k) refl

  pub find_object-ok :
      (o : Oid) (w : W) (x : LfsObject)
      → (find_object pool o w).0 ≡ ok x
      → stored w o.value ≡ some x
  find_object-ok o w x h = elim (find_object-cases o w) [
    | inl (r, got, e) ↦ rw (table.select-ok o.value w r got, rw e at h) refl
    | inr (y, _, e) ↦ cc (rw e at h)
  ]

  pub find_object_missing :
      (o : Oid) (w : W) (e : GoError)
      → (find_object pool o w).0 ≡ err e
      → is_error e not_found ≡ true
      → stored w o.value ≡ none
  find_object_missing o w e h t = elim (find_object-cases o w) [
    | inl (r, got, p) ↦ rw (table.select-ok o.value w r got, rw p at h) refl
    | inr (y, got, p) ↦
        let found = subst (λ z. is_error z not_found ≡ true) (cc (rw p at h)) t in
        let none_there = row_error_found y (table.select_foreign o.value w y got) found in
        rw (table.select_none o.value w y got none_there) refl
  ]
