-- ===== src/Usecase/Marking.antt =====
-- What the two writers of the `uploaded` flag, verification and proxy upload, may do to the store.
use mathlib.Core.Path.{subst}
use cargohold.Domain.Object.{LfsObject, Time, mark_as_uploaded}
use cargohold.Domain.Object.Laws.{mark_as_uploaded-IsObject, oid-mark_as_uploaded}
use cargohold.Exec.{ok}
use cargohold.Ports.{Services}
use cargohold.Ports.Promises.{IsObjectStore, revised}
use cargohold.Prelude.{Option, ap, inl, inr, refl, some, sym, true, ◌∙◌, ◌≡◌, ◌⊎◌}
use cargohold.Prelude.Text.{Text}

module _ {W : Type 0} (s : Services W) (stored : W → Text → Option LfsObject) (Inv : W → Type 0)
    (store : IsObjectStore s.objects stored Inv) where
  -- Under `k` nothing has changed, or the object there has its flag set and some time of update, and is
  -- otherwise as it was.
  abbrev pub IsMarked : W → W → Text → Type 0
  IsMarked w w' k =
      (stored w' k ≡ stored w k)
      ⊎ ((x : LfsObject) × (stored w k ≡ some x)
          × ((time : Time) × (stored w' k
                ≡ some (record x { uploaded = true; updated_at = time }))))

  -- A run from `w` that keeps the invariant, and marks at most.
  pub record Marks (w w' : W) : Type 0 where
    pub inv : Inv w'
    pub marked : (k : Text) → IsMarked w w' k

  pub Marks-refl : (w : W) → Inv w → Marks w w
  Marks-refl w v = record { inv = v; marked = λ k. inl refl }

  -- Steps that leave the stored objects alone, before and after.
  pub Marks-before : (w v w' : W) → ((k : Text) → stored v k ≡ stored w k) → Marks v w' → Marks w w'
  Marks-before w v w' same m = record {
    inv = m.inv;
    marked = λ k. elim (m.marked k) [
      | inl e ↦ inl (e ∙ same k)
      | inr (x, here, there) ↦ inr (x, sym (same k) ∙ here, there)
    ];
  }

  pub Marks-after :
      (w v w' : W) → Inv w' → ((k : Text) → stored w' k ≡ stored v k) → Marks w v → Marks w w'
  Marks-after w v w' inv same m = record {
    inv = inv;
    marked = λ k. elim (m.marked k) [
      | inl e ↦ inl (same k ∙ e)
      | inr (x, here, (time, there)) ↦ inr (x, here, (time, same k ∙ there))
    ];
  }

  marked-revised :
      (time : Time) (x : LfsObject)
      → revised store.kept x (mark_as_uploaded time x)
        ≡ record x { uploaded = true; updated_at = store.kept time }
  unfolding mark_as_uploaded
  marked-revised time x = refl

  -- the object that an update finds, by the OID of the marked one
  under_its_oid :
      (time : Time) (x : LfsObject) (k : Text) (w : W)
      → stored w k ≡ some x
      → x.oid.value ≡ k
      → stored w (mark_as_uploaded time x).oid.value ≡ some x
  unfolding mark_as_uploaded
  under_its_oid time x k w here at = ap (stored w) at ∙ here

  -- The update that both writers end with.
  pub update-Marks :
      (time : Time) (x : LfsObject) (k : Text) (w : W)
      → Inv w
      → stored w k ≡ some x
      → Marks w (s.objects.update (mark_as_uploaded time x) w).1
  update-Marks time x k w v here =
      let (good, at) = store.stored-IsObject w k x v here in
      let good' = mark_as_uploaded-IsObject time x good in
      let old = under_its_oid time x k w here at in
      record {
        inv = store.update-Inv (mark_as_uploaded time x) x w good' old v;
        marked = λ j. elim (store.update-stored (mark_as_uploaded time x) x w j good' old v) [
          | inl e ↦ inl e
          | inr (same, e) ↦ inr (
            x,
            subst (λ i. stored w i ≡ some x) (sym at ∙ (sym (oid-mark_as_uploaded time x) ∙ same))
                here,
            (store.kept time, e ∙ ap some (marked-revised time x)),
          )
        ];
      }

  -- If the update returned, the object is marked.
  pub update-done :
      (time : Time) (x : LfsObject) (k : Text) (w : W)
      → Inv w
      → stored w k ≡ some x
      → (s.objects.update (mark_as_uploaded time x) w).0 ≡ ok tt
      → stored (s.objects.update (mark_as_uploaded time x) w).1 k
        ≡ some (record x { uploaded = true; updated_at = store.kept time })
  update-done time x k w v here done =
      let (good, at) = store.stored-IsObject w k x v here in
      subst
        (λ j.
          stored (s.objects.update (mark_as_uploaded time x) w).1 j
          ≡ some (record x { uploaded = true; updated_at = store.kept time }))
        (oid-mark_as_uploaded time x ∙ at)
        (store.update-ok (mark_as_uploaded time x) x w (mark_as_uploaded-IsObject time x good)
            (under_its_oid time x k w here at) v done
          ∙ ap some (marked-revised time x))
