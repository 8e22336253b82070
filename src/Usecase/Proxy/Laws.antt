-- ===== src/Usecase/Proxy/Laws.antt =====
-- What the proxied transfers guarantee: who may start them, what they may change, and what they
-- hand out.
use mathlib.Core.Path.{subst}
use cargohold.Domain.Object.{LfsObject, Time, mark_as_uploaded}
use cargohold.Domain.Oid.{Oid}
use cargohold.Domain.Operation.{Operation, operation_download, operation_upload}
use cargohold.Domain.Policy.{AccessPolicy}
use cargohold.Domain.Repository.{RepositoryIdentifier}
use cargohold.Exec.{Exec, Result, ok, on_error, ◌>>=◌}
use cargohold.Exec.Keeps.{
  Keeps, Keeps-bind, Keeps-lift, Keeps-pure, Keeps-raise, Result-cases, bind_returned,
  lift_returned, on_error_returned, pure_returned, raise_returned,
}
use cargohold.Ports.{ObjectStorage, Services}
use cargohold.Ports.Promises.{IsLawful}
use cargohold.Prelude.{
  Bool-cases, Option, ap, if_both, inl, inr, not, refl, some, some_inj, sym, true, ◌∙◌, ◌≡◌,
}
use cargohold.Prelude.Int.{ℤ}
use cargohold.Prelude.Text.{Text}
use cargohold.Usecase.Authorize.{AuthorizationResult, check_authorization}
use cargohold.Usecase.Authorize.Laws.{Permits, check_authorization-Permits}
use cargohold.Usecase.Marking.{Marks, Marks-before, Marks-refl, update-Marks, update-done}
use cargohold.Usecase.Proxy.{
  fetch_content, proxy_authorize, proxy_download, proxy_lookup_error, proxy_repository,
  proxy_upload, store_content,
}

module _ {W Body : Type 0} (s : Services W) (storage : ObjectStorage W Body)
    (stored : W → Text → Option LfsObject) (policy : W → Text → Option AccessPolicy)
    (Inv : W → Type 0) (lawful : IsLawful s stored policy Inv)
    (put-Inv : (k : Text) (b : Body) (n : ℤ) (w : W) → Inv w → Inv (storage.put_object k b n w).1)
    (put-stored : (k : Text) (b : Body) (n : ℤ) (w : W) (j : Text)
      → Inv w
      → stored (storage.put_object k b n w).1 j ≡ stored w j) where
  -- A sound world with the same objects and policies as `w`.
  pub record Same (w v : W) : Type 0 where
    pub inv : Inv v
    pub objects : (k : Text) → stored v k ≡ stored w k
    pub policies : (k : Text) → policy v k ≡ policy w k

  Same-refl : (w : W) → Inv w → Same w w
  Same-refl w v = record { inv = v; objects = λ k. refl; policies = λ k. refl }

  -- The repository that the path names may do this with the object.
  abbrev pub MayTransfer : Operation → Text → Text → Oid → W → Type 0
  MayTransfer operation owner repo oid w =
      (r : RepositoryIdentifier) × (proxy_repository owner repo ≡ ok r)
      × ((a : AuthorizationResult) × Permits operation r (policy w oid.value) a)

  check-Same :
      (w : W) (op : Operation) (r : RepositoryIdentifier) (oid : Oid)
      → Keeps (Same w) (check_authorization s.policies op (some r) oid)
  unfolding check_authorization
  check-Same w op r oid = record {
    at = λ v h. record {
      inv = lawful.policies.find-Inv oid v h.inv;
      objects = λ k. lawful.find_policy-stored oid v k h.inv ∙ h.objects k;
      policies = λ k. lawful.policies.find-stored oid v k h.inv ∙ h.policies k;
    };
  }

  authorize-Same :
      (w : W) (op : Operation) (owner repo : Text) (oid : Oid)
      → Keeps (Same w) (proxy_authorize s storage op owner repo oid)
  unfolding proxy_authorize
  authorize-Same w op owner repo oid = Keeps-bind _ _ (Keeps-lift _) λ r.
      Keeps-bind _ _ (check-Same w op r oid)
        λ a. if_both (Keeps (Same w)) (not a.allowed) (Keeps-raise _) (Keeps-pure tt)

  authorize-MayTransfer :
      (op : Operation) (owner repo : Text) (oid : Oid) (w v : W)
      → Inv w
      → proxy_authorize s storage op owner repo oid w ≡ (ok tt, v)
      → MayTransfer op owner repo oid w
  unfolding proxy_authorize
  authorize-MayTransfer op owner repo oid w v inv h =
      let (r, w1, p1, h1) = bind_returned _ _ w v tt h in
      let (named, e1) = lift_returned _ w w1 r p1 in
      let (a, w2, p2, _) = bind_returned _ _ w1 v tt h1 in
      let (r', same, permits) =
        check_authorization-Permits s.policies policy Inv lawful.policies op (some r) oid w1 w2 a
          (subst Inv (sym e1) inv) p2 in
      (
        r,
        named,
        (
          a,
          subst (λ u. Permits op r (policy u oid.value) a) e1
              (subst (λ q. Permits op q (policy w1 oid.value) a) (sym (some_inj same)) permits),
        ),
      )

  store_content-Marks :
      (body : Body) (x : LfsObject) (k : Text) (v : W)
      → Inv v
      → stored v k ≡ some x
      → Marks s stored Inv lawful.objects v (store_content s storage body x v).1
  unfolding store_content ◌>>=◌
  store_content-Marks body x k v inv here =
      let u = (storage.put_object x.storage_key.value body x.size.value v).1 in
      let same = λ (j : Text). put-stored x.storage_key.value body x.size.value v j inv in
      let sound = put-Inv x.storage_key.value body x.size.value v inv in
      elim (Result-cases (storage.put_object x.storage_key.value body x.size.value v).0) [
        | inl (_, e) ↦ rw e (
            Marks-before s stored Inv lawful.objects v u _ same
              (update-Marks s stored Inv lawful.objects (s.now u) x k u sound (same k ∙ here)))
        | inr (_, e) ↦ rw e (
            Marks-before s stored Inv lawful.objects v u u same
              (Marks-refl s stored Inv lawful.objects u sound))
      ]

  find-Same : (w : W) (oid : Oid) (v : W) → Same w v → Same w (s.objects.find_by_oid oid v).1
  find-Same w oid v h = record {
    inv = lawful.objects.find-Inv oid v h.inv;
    objects = λ k. lawful.objects.find-stored oid v k h.inv ∙ h.objects k;
    policies = λ k. lawful.find_object-policy oid v k h.inv ∙ h.policies k;
  }

  find-here :
      (oid : Oid) (v : W) (x : LfsObject)
      → Inv v
      → (s.objects.find_by_oid oid v).0 ≡ ok x
      → stored (s.objects.find_by_oid oid v).1 oid.value ≡ some x
  find-here oid v x inv e =
      lawful.objects.find-stored oid v oid.value inv ∙ lawful.objects.find-ok oid v x inv e

  -- From a sound world, over services that keep their promises: a proxied upload, whether it
  -- returns or fails, leaves each object as it is, or sets its flag `uploaded` and its time of
  -- update and nothing else of it.
  pub proxy_upload-Marks :
      (owner repo : Text) (oid : Oid) (body : Body) (w : W)
      → Inv w
      → Marks s stored Inv lawful.objects w (proxy_upload s storage owner repo oid body w).1
  unfolding proxy_upload ◌>>=◌
  proxy_upload-Marks owner repo oid body w inv =
      let a = (proxy_authorize s storage operation_upload owner repo oid w).1 in
      let here = (authorize-Same w operation_upload owner repo oid).at w (Same-refl w inv) in
      let found = find-Same w oid a here in
      let still = λ (u : W) (h : Same w u).
        Marks-before s stored Inv lawful.objects w u u h.objects
          (Marks-refl s stored Inv lawful.objects u h.inv) in
      elim (Result-cases (proxy_authorize s storage operation_upload owner repo oid w).0) [
        | inr (_, e) ↦ rw e (still a here)
        | inl (_, e) ↦ elim (Result-cases (s.objects.find_by_oid oid a).0) [
          | inr (_, missing) ↦ rw (e, missing) (still _ found)
          | inl (x, there) ↦
              rw (e, there)
                (Marks-before s stored Inv lawful.objects w (s.objects.find_by_oid oid a).1 _
                  found.objects
                  (store_content-Marks body x oid.value _ found.inv
                    (find-here oid a x here.inv there)))
        ]
      ]

  store_content-done :
      (body : Body) (x : LfsObject) (k : Text) (v w' : W)
      → Inv v
      → stored v k ≡ some x
      → store_content s storage body x v ≡ (ok tt, w')
      → ((storage.put_object x.storage_key.value body x.size.value v).0 ≡ ok tt)
        × ((time : Time) × (stored w' k ≡ some (record x { uploaded = true; updated_at = time })))
  unfolding store_content ◌>>=◌
  store_content-done body x k v w' inv here h =
      let u = (storage.put_object x.storage_key.value body x.size.value v).1 in
      let sound = put-Inv x.storage_key.value body x.size.value v inv in
      elim (Result-cases (storage.put_object x.storage_key.value body x.size.value v).0) [
        | inl (_, e) ↦
            let h' : s.objects.update (mark_as_uploaded (s.now u) x) u ≡ (ok tt, w') = rw e at h in
            (
              e,
              (
                lawful.objects.kept (s.now u),
                subst
                    (λ t.
                      stored t k
                      ≡ some (record x {
                        uploaded = true;
                        updated_at = lawful.objects.kept (s.now u);
                      }))
                    (ap (λ (p : Result (Unit {0}) × W). p.1) h')
                    (update-done s stored Inv lawful.objects (s.now u) x k u sound
                      (put-stored x.storage_key.value body x.size.value v k inv ∙ here)
                      (ap (λ (p : Result (Unit {0}) × W). p.0) h')),
              ),
            )
        | inr (x, e) ↦ cc (ap (λ (p : Result (Unit {0}) × W). p.0) (rw e at h))
      ]

  -- What a proxied upload that returned has established: the content of the registered object went
  -- to the storage, for a repository that may upload it, and the object is marked.
  pub record IsStored (owner repo : Text) (oid : Oid) (body : Body) (w w' : W) : Type 0 where
    pub permitted : MayTransfer operation_upload owner repo oid w
    pub object : LfsObject
    pub there : stored w oid.value ≡ some object
    pub at : W
    pub content : (storage.put_object object.storage_key.value body object.size.value at).0 ≡ ok tt
    pub time : Time
    pub marked : stored w' oid.value ≡ some (record object { uploaded = true; updated_at = time })

  -- The two steps that both transfers start with.
  pub record IsFound (operation : Operation) (owner repo : Text) (oid : Oid) (w u : W)
      (object : LfsObject) : Type 0 where
    pub permitted : MayTransfer operation owner repo oid w
    pub same : Same w u
    pub there : stored w oid.value ≡ some object

  transfer-IsFound :
      {A : Type 0} (op : Operation) (owner repo : Text) (oid : Oid) (rest : LfsObject → Exec W A)
      (a : A) (w w' : W)
      → Inv w
      → (proxy_authorize s storage op owner repo oid >>= λ _.
            on_error proxy_lookup_error (s.objects.find_by_oid oid) >>= rest)
          w
        ≡ (ok a, w')
      → (u : W) × (x : LfsObject) × IsFound op owner repo oid w u x × (rest x u ≡ (ok a, w'))
  transfer-IsFound op owner repo oid rest a w w' inv h =
      let (_, v, p1, h1) = bind_returned _ _ w w' a h in
      let (x, u, p2, h2) = bind_returned _ _ v w' a h1 in
      let at_v = ap (λ (p : Result (Unit {0}) × W). p.1) p1 in
      let same =
        subst (Same w) at_v ((authorize-Same w op owner repo oid).at w (Same-refl w inv)) in
      let p3 = on_error_returned proxy_lookup_error (s.objects.find_by_oid oid) x v u p2 in
      (
        u,
        x,
        record {
          permitted = authorize-MayTransfer op owner repo oid w v inv p1;
          same =
              subst (Same w) (ap (λ (p : Result LfsObject × W). p.1) p3) (find-Same w oid v same);
          there =
              sym (same.objects oid.value)
              ∙ lawful.objects.find-ok oid v x same.inv (ap (λ (p : Result LfsObject × W). p.0) p3);
        },
        h2,
      )

  -- From a sound world, over services that keep their promises, after a proxied upload that
  -- returned without an error: its repository may upload the object, which was stored, the storage
  -- accepted the content under the object's key and size, and the object is stored with
  -- the flag `uploaded` set and some time of update, and otherwise as it was.
  pub proxy_upload-IsStored :
      (owner repo : Text) (oid : Oid) (body : Body) (w w' : W)
      → Inv w
      → proxy_upload s storage owner repo oid body w ≡ (ok tt, w')
      → IsStored owner repo oid body w w'
  unfolding proxy_upload
  proxy_upload-IsStored owner repo oid body w w' inv h =
      let (u, x, found, done) =
        transfer-IsFound operation_upload owner repo oid (store_content s storage body) tt w w' inv
          h in
      let (content, (time, marked)) =
        store_content-done body x oid.value u w' found.same.inv
          (found.same.objects oid.value ∙ found.there) done in
      record {
        permitted = found.permitted;
        object = x;
        there = found.there;
        at = u;
        content = content;
        time = time;
        marked = marked;
      }

  -- What a proxied download hands out.
  pub record IsFetched (owner repo : Text) (oid : Oid) (body : Body) (size : ℤ) (w : W)
      : Type 0 where
    pub permitted : MayTransfer operation_download owner repo oid w
    pub object : LfsObject
    pub there : stored w oid.value ≡ some object
    pub uploaded : object.uploaded ≡ true
    pub sized : size ≡ object.size.value
    pub at : W
    pub content : (storage.get_object object.storage_key.value at).0 ≡ ok body

  fetch_content-done :
      (x : LfsObject) (body : Body) (size : ℤ) (u w' : W)
      → fetch_content s storage x u ≡ (ok (body, size), w')
      → (x.uploaded ≡ true)
        × (size ≡ x.size.value)
        × ((storage.get_object x.storage_key.value u).0 ≡ ok body)
  unfolding fetch_content
  fetch_content-done x body size u w' h = elim (Bool-cases x.uploaded) [
    | inr waits ↦ absurd (raise_returned _ u w' (body, size) (rw waits at h))
    | inl done ↦
        let (b, v, p, q) = bind_returned _ _ u w' (body, size) (rw done at h) in
        let same = (pure_returned _ _ v w' q).0 in
        (
          done,
          sym (ap (λ (p : Body × ℤ). p.1) same),
          ap (λ (p : Result Body × W). p.0) p ∙ ap (λ (p : Body × ℤ). ok p.0) same,
        )
  ]

  -- From a sound world, over services that keep their promises, after a proxied download that
  -- returned without an error: its repository may download the object, which is stored and
  -- uploaded, and the content came from the storage under the object's key, with the object's size.
  pub proxy_download-IsFetched :
      (owner repo : Text) (oid : Oid) (body : Body) (size : ℤ) (w w' : W)
      → Inv w
      → proxy_download s storage owner repo oid w ≡ (ok (body, size), w')
      → IsFetched owner repo oid body size w
  unfolding proxy_download
  proxy_download-IsFetched owner repo oid body size w w' inv h =
      let (u, x, found, done) =
        transfer-IsFound operation_download owner repo oid (fetch_content s storage) (body, size) w
          w' inv h in
      let (uploaded, sized, content) = fetch_content-done x body size u w' done in
      record {
        permitted = found.permitted;
        object = x;
        there = found.there;
        uploaded = uploaded;
        sized = sized;
        at = u;
        content = content;
      }
