-- ===== src/Usecase/Verify/Laws.antt =====
-- What verification guarantees, and what it may change.
use mathlib.Core.Path.{subst}
use cargohold.Domain.Object.{LfsObject, Time, mark_as_uploaded}
use cargohold.Domain.Oid.{Oid, Size, new_oid, new_size}
use cargohold.Domain.Oid.Laws.{new_oid-eq-ok_iff, new_size-value}
use cargohold.Exec.{Exec, Result, err, ok, raise, ◌>>=◌}
use cargohold.Exec.Keeps.{
  Result-cases, bind_returned, lift_returned, map_err-eq-ok, on_error_returned, raise_returned,
}
use cargohold.Failure.{GoError, sentinel, size_mismatch, wrapped}
use cargohold.Ports.{Services}
use cargohold.Ports.Promises.{IsObjectStore}
use cargohold.Prelude.{
  Bool-cases, Option, ap, if_both, inl, inr, not, some, sym, true, ◌∙◌, ◌≡◌, ◌⊎◌,
}
use cargohold.Prelude.Int.{int_eq, int_eq_iff, ℤ}
use cargohold.Prelude.Text.{Text}
use cargohold.Usecase.Marking.{
  Marks, Marks-after, Marks-before, Marks-refl, update-Marks, update-done,
}
use cargohold.Usecase.Verify.{lookup_error, mark_verified, verify_found, verify_upload}

module _ {W : Type 0} (s : Services W) (delete_batch_upload_key : Text → Exec W (Unit {0}))
    (stored : W → Text → Option LfsObject) (Inv : W → Type 0)
    (store : IsObjectStore s.objects stored Inv)
    (delete-Inv : (k : Text) (w : W) → Inv w → Inv (delete_batch_upload_key k w).1)
    (delete-stored : (j : Text) (w : W) (k : Text)
      → Inv w
      → stored (delete_batch_upload_key j w).1 k ≡ stored w k) where
  -- What a verification that returned has established.
  pub record IsVerified (oid : Text) (size : ℤ) (w w' : W) : Type 0 where
    pub object : LfsObject
    pub there : stored w oid ≡ some object
    pub size_agrees : object.size.value ≡ size
    pub time : Time
    pub marked : stored w' oid ≡ some (record object { uploaded = true; updated_at = time })

  abbrev marked_world : LfsObject → W → Result (Unit {0}) × W
  marked_world x w = s.objects.update (mark_as_uploaded (s.now w) x) w

  -- Either the update returned, and the key is deleted as well as may be, or its error ends the run.
  mark_verified-cases :
      (oid : Text) (x : LfsObject) (w : W)
      → (((marked_world x w).0 ≡ ok tt)
          × (mark_verified s delete_batch_upload_key oid x w
              ≡ (ok tt, (delete_batch_upload_key oid (marked_world x w).1).1)))
        ⊎ ((e : GoError) × (mark_verified s delete_batch_upload_key oid x w
              ≡ (err e, (marked_world x w).1)))
  unfolding mark_verified ◌>>=◌
  mark_verified-cases oid x w = elim (Result-cases (marked_world x w).0) [
    | inl (u, e) ↦ inl (e, rw e)
    | inr (x, e) ↦ inr (wrapped "メタデータの更新に失敗しました" x, rw e)
  ]

  mark_verified-Marks :
      (oid : Text) (x : LfsObject) (w : W)
      → Inv w
      → stored w oid ≡ some x
      → Marks s stored Inv store w (mark_verified s delete_batch_upload_key oid x w).1
  mark_verified-Marks oid x w v here =
      let m = update-Marks s stored Inv store (s.now w) x oid w v here in
      elim (mark_verified-cases oid x w) [
        | inl (_, e) ↦ rw e (
            Marks-after s stored Inv store w (marked_world x w).1 _
              (delete-Inv oid (marked_world x w).1 m.inv)
              (λ k. delete-stored oid (marked_world x w).1 k m.inv) m)
        | inr (_, e) ↦ rw e m
      ]

  mark_verified-done :
      (oid : Text) (x : LfsObject) (w w' : W)
      → Inv w
      → stored w oid ≡ some x
      → mark_verified s delete_batch_upload_key oid x w ≡ (ok tt, w')
      → stored w' oid ≡ some (record x { uploaded = true; updated_at = store.kept (s.now w) })
  mark_verified-done oid x w w' v here h =
      let m = update-Marks s stored Inv store (s.now w) x oid w v here in
      elim (mark_verified-cases oid x w) [
        | inl (done, e) ↦
            subst
              (λ u.
                stored u oid
                ≡ some (record x { uploaded = true; updated_at = store.kept (s.now w) }))
              (ap (λ (p : Result (Unit {0}) × W). p.1) (sym e ∙ h))
              (delete-stored oid (marked_world x w).1 oid m.inv
                ∙ update-done s stored Inv store (s.now w) x oid w v here done)
        | inr (_, e) ↦ cc (ap (λ (p : Result (Unit {0}) × W). p.0) (sym e ∙ h))
      ]

  verify_found-Marks :
      (oid : Text) (size : Size) (x : LfsObject) (w : W)
      → Inv w
      → stored w oid ≡ some x
      → Marks s stored Inv store w (verify_found s delete_batch_upload_key oid size x w).1
  unfolding verify_found raise
  verify_found-Marks oid size x w v here =
      if_both (λ (m : Exec W (Unit {0})). Marks s stored Inv store w (m w).1)
        (not (int_eq x.size.value size.value)) (Marks-refl s stored Inv store w v)
        (mark_verified-Marks oid x w v here)

  found :
      (o : Oid) (x : LfsObject) (w : W)
      → Inv w
      → (s.objects.find_by_oid o w).0 ≡ ok x
      → stored (s.objects.find_by_oid o w).1 o.value ≡ some x
  found o x w v e = store.find-stored o w o.value v ∙ store.find-ok o w x v e

  -- What a lookup has found stands under the OID that was asked for.
  found_raw :
      (oid : Text) (o : Oid) (x : LfsObject) (w : W)
      → Inv w
      → new_oid oid ≡ ok o
      → (s.objects.find_by_oid o w).0 ≡ ok x
      → stored (s.objects.find_by_oid o w).1 oid ≡ some x
  found_raw oid o x w v parsed there =
      subst (λ k. stored (s.objects.find_by_oid o w).1 k ≡ some x)
        ((new_oid-eq-ok_iff oid o).0 parsed).0 (found o x w v there)

  -- From a sound world, over a repository that keeps its promises and a deletion of keys that
  -- leaves the objects alone: a verification, whether it returns or fails, leaves each object as it
  -- is, or sets its flag `uploaded` and its time of update and nothing else of it.
  pub verify_upload-Marks :
      (oid : Text) (size : ℤ) (w : W)
      → Inv w
      → Marks s stored Inv store w (verify_upload s delete_batch_upload_key oid size w).1
  unfolding verify_upload ◌>>=◌
  verify_upload-Marks oid size w v = elim (Result-cases (new_oid oid)) [
    | inr (e, refusal) ↦ rw refusal (Marks-refl s stored Inv store w v)
    | inl (o, parsed) ↦ elim (Result-cases (new_size size)) [
      | inr (e, refusal) ↦ rw (parsed, refusal) (Marks-refl s stored Inv store w v)
      | inl (z, sized) ↦
          let u = (s.objects.find_by_oid o w).1 in
          let same = λ (k : Text). store.find-stored o w k v in
          let sound = store.find-Inv o w v in
          elim (Result-cases (s.objects.find_by_oid o w).0) [
            | inr (e, missing) ↦
                rw (parsed, sized, missing)
                  (Marks-before s stored Inv store w u u same
                    (Marks-refl s stored Inv store u sound))
            | inl (x, there) ↦
                rw (parsed, sized, there)
                  (Marks-before s stored Inv store w u _ same
                    (verify_found-Marks oid z x u sound (found_raw oid o x w v parsed there)))
          ]
    ]
  ]

  verify_found-done :
      (oid : Text) (size : Size) (x : LfsObject) (w w' : W)
      → Inv w
      → stored w oid ≡ some x
      → verify_found s delete_batch_upload_key oid size x w ≡ (ok tt, w')
      → (x.size.value ≡ size.value)
        × (stored w' oid ≡ some (record x { uploaded = true; updated_at = store.kept (s.now w) }))
  unfolding verify_found
  verify_found-done oid size x w w' v here h = elim (Bool-cases (int_eq x.size.value size.value)) [
    | inl agrees ↦ (
      (int_eq_iff x.size.value size.value).0 agrees,
      mark_verified-done oid x w w' v here (rw agrees at h),
    )
    | inr differs ↦ absurd (raise_returned (sentinel size_mismatch) w w' tt (rw differs at h))
  ]

  -- From a sound world, over a repository that keeps its promises and a deletion of keys that
  -- leaves the objects alone: after a verification that returned without an error, the object had
  -- been stored with exactly the size of the request, and it is stored under its OID with
  -- the flag `uploaded` set and some time of update, and with its OID, size, algorithm, key and
  -- time of creation as they were.
  pub verify_upload-IsVerified :
      (oid : Text) (size : ℤ) (w w' : W)
      → Inv w
      → verify_upload s delete_batch_upload_key oid size w ≡ (ok tt, w')
      → IsVerified oid size w w'
  unfolding verify_upload
  verify_upload-IsVerified oid size w w' v h =
      let (o, w1, p1, h1) = bind_returned _ _ w w' tt h in
      let (oid_ok, e1) = lift_returned _ w w1 o p1 in
      let (z, w2, p2, h2) = bind_returned _ _ w1 w' tt h1 in
      let (size_ok, e2) = lift_returned _ w1 w2 z p2 in
      let (x, u, p3, h3) = bind_returned _ _ w2 w' tt h2 in
      let parsed = map_err-eq-ok _ (new_oid oid) oid_ok in
      let sized = map_err-eq-ok _ (new_size size) size_ok in
      let p4 : s.objects.find_by_oid o w ≡ (ok x, u) =
        subst (λ t. s.objects.find_by_oid o t ≡ (ok x, u)) (e2 ∙ e1)
          (on_error_returned lookup_error (s.objects.find_by_oid o) x w2 u p3) in
      let at_u = ap (λ (p : Result LfsObject × W). p.1) p4 in
      let there = ap (λ (p : Result LfsObject × W). p.0) p4 in
      let here = found_raw oid o x w v parsed there in
      let (agrees, marked) =
        verify_found-done oid z x u w' (subst Inv at_u (store.find-Inv o w v))
          (subst (λ t. stored t oid ≡ some x) at_u here) h3 in
      record {
        object = x;
        there = sym (store.find-stored o w oid v) ∙ here;
        size_agrees = agrees ∙ new_size-value size z sized;
        time = store.kept (s.now u);
        marked = marked;
      }
