-- ===== src/Infra/Postgres/Objects/Changes.antt =====
-- What the statements that insert and update an object leave in the table `lfs_objects`.
use mathlib.Core.Path.{ap₂, subst}
use cargohold.Domain.Object.{LfsObject, Time}
use cargohold.Domain.Object.Laws.{IsObject}
use cargohold.Exec.{Result, err, ok, ◌>>=◌}
use cargohold.Exec.Keeps.{Result-cases}
use cargohold.Failure.{GoError, no_rows, not_found, sentinel}
use cargohold.Infra.Caching.Laws.{View}
use cargohold.Infra.Postgres.{LfsObjectRow, Pool, affected, insert_object, row_error, update_object}
use cargohold.Infra.Postgres.Objects.{
  domain_to_row, insert_row, row_to_domain, save_object, update_object_row, update_row,
}
use cargohold.Infra.Postgres.Objects.Laws.{row_to_domain-IsObject, row_to_domain-domain_to_row}
use cargohold.Infra.Postgres.Objects.Store.{
  IsObjectTable, assign, object_of, object_of-eq-some, objects_of, stamped, to_option,
}
use cargohold.Ports.Promises.{at_columns, revised}
use cargohold.Prelude.{
  Option, ap, arith, false, inl, inr, some, suc, sym, zero, ℕ, ◌==◌, ◌∙◌, ◌≡◌, ◌≢◌, ◌⊎◌,
}
use cargohold.Prelude.Text.{Text, Text-cases}

module _ {W : Type 0} (pool : Pool W) (rows : View W LfsObjectRow)
    (table : IsObjectTable pool rows) where
  abbrev stored : View W LfsObject
  stored w k = objects_of rows w k

  abbrev pub inserted : LfsObject → W → Result ℕ × W
  inserted x w = pool.exec (insert_object (domain_to_row x)) w

  abbrev pub changed : LfsObject → W → Result ℕ × W
  changed x w =
      pool.exec
        (update_object x.oid.value x.size.value x.hash_algo.value x.storage_key.value x.uploaded
          x.updated_at)
        w

  pub save_object-cases :
      (x : LfsObject) (w : W)
      → ((n : ℕ) × ((inserted x w).0 ≡ ok n) × (save_object pool x w ≡ (ok tt, (inserted x w).1)))
        ⊎ ((e : GoError) × ((inserted x w).0 ≡ err e)
            × (save_object pool x w ≡ (err e, (inserted x w).1)))
  unfolding save_object insert_row ◌>>=◌
  save_object-cases x w = elim (Result-cases (inserted x w).0) [
    | inl (n, e) ↦ inl (n, e, rw e)
    | inr (x, e) ↦ inr (x, e, rw e)
  ]

  suc_is_not_zero : (n : ℕ) → (suc n == 0) ≡ false
  suc_is_not_zero n = ground arith

  -- Rows were changed, no row was there, or the statement failed.
  pub update_object_row-cases :
      (x : LfsObject) (w : W)
      → ((n : ℕ) × ((changed x w).0 ≡ ok n)
          × (update_object_row pool x w ≡ (ok tt, (changed x w).1)))
        ⊎ ((e : GoError) × (update_object_row pool x w ≡ (err e, (changed x w).1))
            × (((changed x w).0 ≡ ok 0) ⊎ ((y : GoError) × ((changed x w).0 ≡ err y))))
  unfolding update_object_row update_row affected domain_to_row ◌>>=◌
  update_object_row-cases x w = elim (Result-cases (changed x w).0) [
    | inl (zero, e) ↦ inr (row_error not_found (sentinel no_rows), rw e, inl e)
    | inl (suc n, e) ↦ inl (suc n, e, rw (e, suc_is_not_zero n))
    | inr (y, e) ↦ inr (row_error not_found y, rw e, inr (y, e))
  ]

  -- What an insertion of `x` leaves.
  abbrev pub kept_object : LfsObject → LfsObject
  kept_object x = at_columns table.kept x

  kept_object-IsObject : (x : LfsObject) → IsObject x → IsObject (kept_object x)
  kept_object-IsObject x v = record {
    hex = v.hex;
    sized = v.sized;
    hashed = v.hashed;
    keyed = v.keyed;
  }

  stamped-object :
      (x : LfsObject)
      → IsObject x
      → object_of (some (stamped table.kept (domain_to_row x))) ≡ some (kept_object x)
  unfolding domain_to_row
  stamped-object x good =
      ap to_option (row_to_domain-domain_to_row (kept_object x) (kept_object-IsObject x good))

  pub inserted-stored :
      (x : LfsObject) (w : W) (n : ℕ)
      → IsObject x
      → (inserted x w).0 ≡ ok n
      → stored (inserted x w).1 x.oid.value ≡ some (kept_object x)
  unfolding domain_to_row
  inserted-stored x w n good e =
      ap object_of (table.insert-rows (domain_to_row x) w n e) ∙ stamped-object x good

  pub inserted_failed :
      (x : LfsObject) (w : W) (e : GoError)
      → IsObject x
      → (inserted x w).0 ≡ err e
      → (stored (inserted x w).1 x.oid.value ≡ stored w x.oid.value)
        ⊎ (stored (inserted x w).1 x.oid.value ≡ some (kept_object x))
  unfolding domain_to_row
  inserted_failed x w e good h = elim (table.insert_failed (domain_to_row x) w e h) [
    | inl same ↦ inl (ap object_of same)
    | inr done ↦ inr (ap object_of done ∙ stamped-object x good)
  ]

  pub inserted-other :
      (x : LfsObject) (w : W) (k : Text) → x.oid.value ≢ k → stored (inserted x w).1 k ≡ stored w k
  unfolding domain_to_row
  inserted-other x w k other = ap object_of (table.insert-other (domain_to_row x) w k other)

  -- What an update to `x` leaves of `y`: the row keeps its creation.
  abbrev pub changed_object : LfsObject → LfsObject → LfsObject
  changed_object y x = revised table.kept y x

  changed_object-IsObject : (y x : LfsObject) → IsObject x → IsObject (changed_object y x)
  changed_object-IsObject y x v = record {
    hex = v.hex;
    sized = v.sized;
    hashed = v.hashed;
    keyed = v.keyed;
  }

  assigned : LfsObject → Option LfsObjectRow → Option LfsObjectRow
  assigned x o =
      assign x.size.value x.hash_algo.value x.storage_key.value x.uploaded (table.kept x.updated_at)
        o

  assigned-object :
      (x y : LfsObject) (w : W)
      → IsObject x
      → stored w x.oid.value ≡ some y
      → object_of (assigned x (rows w x.oid.value)) ≡ some (changed_object y x)
  unfolding assigned domain_to_row
  assigned-object x y w good there =
      let (r, at, read) = object_of-eq-some (rows w x.oid.value) y there in
      let (_, _, birth) = row_to_domain-IsObject r y read in
      let same = table.keyed w x.oid.value r at in
      let row = λ (o : Text) (t : Time). record (domain_to_row (changed_object y x)) {
        oid = o;
        created_at = t;
      } in
      ap (λ o. object_of (assigned x o)) at
      ∙ ap₂ (λ o t. to_option (row_to_domain (row o t))) same (sym birth)
      ∙ ap to_option
          (row_to_domain-domain_to_row (changed_object y x) (changed_object-IsObject y x good))

  pub changed-stored :
      (x y : LfsObject) (w : W) (n : ℕ)
      → IsObject x
      → stored w x.oid.value ≡ some y
      → (changed x w).0 ≡ ok n
      → stored (changed x w).1 x.oid.value ≡ some (changed_object y x)
  unfolding assigned
  changed-stored x y w n good there e =
      ap object_of (
        table.update-rows x.oid.value x.size.value x.hash_algo.value x.storage_key.value x.uploaded
          x.updated_at w n e)
      ∙ assigned-object x y w good there

  pub changed_failed :
      (x y : LfsObject) (w : W) (e : GoError)
      → IsObject x
      → stored w x.oid.value ≡ some y
      → (changed x w).0 ≡ err e
      → (stored (changed x w).1 x.oid.value ≡ stored w x.oid.value)
        ⊎ (stored (changed x w).1 x.oid.value ≡ some (changed_object y x))
  unfolding assigned
  changed_failed x y w e good there h =
      elim (table.update_failed x.oid.value x.size.value x.hash_algo.value x.storage_key.value
        x.uploaded x.updated_at w e h) [
          | inl same ↦ inl (ap object_of same)
          | inr done ↦ inr (ap object_of done ∙ assigned-object x y w good there)
        ]

  pub changed-other :
      (x : LfsObject) (w : W) (k : Text) → x.oid.value ≢ k → stored (changed x w).1 k ≡ stored w k
  changed-other x w k other = ap object_of (
      table.update-other x.oid.value x.size.value x.hash_algo.value x.storage_key.value x.uploaded
        x.updated_at w k other)

  -- Where no row was found, none was written.
  pub changed_none :
      (x : LfsObject) (w : W) (k : Text)
      → (changed x w).0 ≡ ok 0
      → stored (changed x w).1 k ≡ stored w k
  changed_none x w k e = elim (Text-cases x.oid.value k) [
    | inl at ↦
        let none_there =
          table.update_none x.oid.value x.size.value x.hash_algo.value x.storage_key.value
            x.uploaded x.updated_at w e in
        let after =
          table.update-rows x.oid.value x.size.value x.hash_algo.value x.storage_key.value
            x.uploaded x.updated_at w 0 e in
        subst (λ j. stored (changed x w).1 j ≡ stored w j) at
          (ap object_of (rw none_there at after ∙ sym none_there))
    | inr other ↦ changed-other x w k other
  ]
