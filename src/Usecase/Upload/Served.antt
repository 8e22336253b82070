-- ===== src/Usecase/Upload/Served.antt =====
-- What an upload answer does to the stored objects.
use mathlib.Core.Path.{subst}
use cargohold.Domain.Object.{LfsObject, new_lfs_object}
use cargohold.Domain.Object.Laws.{IsObject, new_lfs_object-IsObject}
use cargohold.Domain.Oid.{Oid, Size, new_hash_algorithm, new_oid, new_size}
use cargohold.Exec.{Result, err, ok}
use cargohold.Exec.Keeps.{Result-cases}
use cargohold.Failure.{GoError, is_error, not_found}
use cargohold.Ports.{Services}
use cargohold.Ports.Promises.{IsObjectStore, at_columns}
use cargohold.Prelude.{
  Bool-cases, Option, String, ap, false, inl, inr, none, refl, some, sym, true, ℕ, ◌∙◌, ◌≡◌, ◌≢◌,
  ◌⊎◌,
}
use cargohold.Prelude.Int.{int_eq, int_eq_iff}
use cargohold.Prelude.Text.{Text}
use cargohold.Usecase.Response.{Action, ResponseObject, accepted, refused}
use cargohold.Usecase.Upload.{
  answer_saved, create_object, handle_upload_object, save_new, upload_answer, upload_found,
}
use cargohold.Usecase.Upload.Laws.{action_at-sent_to, sent_to}

module _ {W : Type 0} (s : Services W) (stored : W → Text → Option LfsObject) (Inv : W → Type 0)
    (store : IsObjectStore s.objects stored Inv) where
  -- The object under `k` is as before, or it is new, waits for its content and has the wanted size.
  abbrev pub IsKept : Oid → Size → W → W → Text → Type 0
  IsKept oid size w w' k =
      (stored w' k ≡ stored w k)
      ⊎ ((oid.value ≡ k)
          × (stored w k ≡ none)
          × ((x : LfsObject) × (stored w' k ≡ some x) × (x.uploaded ≡ false) × (x.size ≡ size)))

  -- An answer without an error: the object is stored, and either it waits for its content, in the
  -- size of its registration, and the answer offers this upload and no download, or it is there in
  -- the wanted size and the answer asks for nothing.
  abbrev pub IsTold : Action → Oid → Size → ResponseObject → W → Type 0
  IsTold action oid size answer w' =
      (answer.object_error ≢ none)
      ⊎ ((x : LfsObject) × (stored w' oid.value ≡ some x)
          × (((x.uploaded ≡ false)
                × (answer.actions ≡ some (record { upload = some action; download = none })))
              ⊎ ((x.uploaded ≡ true) × (x.size ≡ size) × (answer.actions ≡ none))))

  pub record IsServed (action : Action) (oid : Oid) (size : Size) (w : W) (answer : ResponseObject)
      (w' : W) : Type 0 where
    pub inv : Inv w'
    pub kept : (k : Text) → IsKept oid size w w' k
    pub told : IsTold action oid size answer w'

  abbrev pub Serves : Action → Oid → Size → W → ResponseObject × W → Type 0
  Serves action oid size w p = IsServed action oid size w p.0 p.1

  -- An offer, as `upload_answer` makes it.
  abbrev IsOffer : Action → ResponseObject → Type 0
  IsOffer action answer = answer.actions ≡ some (record { upload = some action; download = none })

  refused-IsServed :
      (action : Action) (oid : Oid) (size : Size) (code : ℕ) (message : String) (w : W)
      → Inv w
      → IsServed action oid size w (refused oid.value size.value code message) w
  unfolding refused
  refused-IsServed action oid size code message w v = record {
    inv = v;
    kept = λ k. inl refl;
    told = inl (λ e. cc e);
  }

  module _ (action : Action) (oid : Oid) (size : Size) (answer : ResponseObject)
      (offer : IsOffer action answer) where
    -- What holds of the object that is made for the upload.
    abbrev IsFresh : LfsObject → Type 0
    IsFresh obj = IsObject obj × (obj.oid ≡ oid) × (obj.size ≡ size) × (obj.uploaded ≡ false)

    save_new-IsKept :
        (obj : LfsObject) (w : W)
        → Inv w
        → IsFresh obj
        → stored w oid.value ≡ none
        → (k : Text) → IsKept oid size w (s.objects.save obj w).1 k
    save_new-IsKept obj w v (good, same, sized, waits) fresh k =
        elim (store.save-stored obj w k good v) [
          | inl e ↦ inl e
          | inr (at, e) ↦
              let here : oid.value ≡ k = ap (λ (o : Oid). o.value) (sym same) ∙ at in
              inr (
                here,
                subst (λ j. stored w j ≡ none) here fresh,
                (at_columns store.kept obj, e, waits, sized),
              )
        ]

    save_new-IsTold :
        (obj : LfsObject) (w : W) (r : Result (Unit {0}))
        → Inv w
        → IsFresh obj
        → (s.objects.save obj w).0 ≡ r
        → IsTold action oid size (answer_saved s oid size answer r) (s.objects.save obj w).1
    unfolding answer_saved refused
    save_new-IsTold obj w (err e) v fresh saved = inl (λ p. cc p)
    save_new-IsTold obj w (ok u) v (good, same, sized, waits) saved = inr (
      at_columns store.kept obj,
      subst
          (λ (o : Oid). stored (s.objects.save obj w).1 o.value ≡ some (at_columns store.kept obj))
          same (store.save-ok obj w good v saved),
      inl (waits, offer),
    )

    save_new-IsServed :
        (obj : LfsObject) (w : W)
        → Inv w
        → IsFresh obj
        → stored w oid.value ≡ none
        → Serves action oid size w (save_new s oid size answer obj w)
    unfolding save_new
    save_new-IsServed obj w v fresh missing = record {
      inv = store.save-Inv obj w fresh.0 v;
      kept = save_new-IsKept obj w v fresh missing;
      told = save_new-IsTold obj w (s.objects.save obj w).0 v fresh refl;
    }

    module _ (hex : new_oid oid.value ≡ ok oid) (sized : new_size size.value ≡ ok size) where
      create_object-IsServed :
          (hash_algo : Text) (w : W)
          → Inv w
          → stored w oid.value ≡ none
          → Serves action oid size w (create_object s oid size hash_algo answer w)
      unfolding create_object
      create_object-IsServed hash_algo w v missing =
          elim (Result-cases (s.generate_storage_key oid.value hash_algo)) [
            | inr (e, refusal) ↦
                rw (refusal, create_object) (refused-IsServed action oid size 400 _ w v)
            | inl (key, keyed) ↦ elim (Result-cases (new_hash_algorithm hash_algo)) [
              | inr (e, refusal) ↦
                  rw (keyed, refusal, create_object) (refused-IsServed action oid size 400 _ w v)
              | inl (h, hashed) ↦ elim (Result-cases (new_lfs_object (s.now w) oid size h key)) [
                | inr (e, refusal) ↦
                    rw (keyed, hashed, refusal, create_object)
                      (refused-IsServed action oid size 500 _ w v)
                | inl (x, made) ↦
                    rw (keyed, hashed, made, create_object)
                      (save_new-IsServed x w v
                        (new_lfs_object-IsObject (s.now w) oid size hash_algo key h x hex sized
                          hashed made)
                        missing)
              ]
            ]
          ]

      present-IsServed :
          (x : LfsObject) (hash_algo : Text) (w : W)
          → Inv w
          → stored w oid.value ≡ some x
          → Serves action oid size w (upload_found s oid size hash_algo answer (ok x) w)
      unfolding upload_found
      present-IsServed x hash_algo w v here = elim (Bool-cases x.uploaded) [
        | inr waits ↦
            rw waits
              (record { inv = v; kept = λ k. inl refl; told = inr (x, here, inl (waits, offer)) })
        | inl done ↦ elim (Bool-cases (int_eq x.size.value size.value)) [
          | inr differs ↦ rw (done, differs) (refused-IsServed action oid size 409 _ w v)
          | inl agrees ↦
              rw (done, agrees)
                (record {
                  inv = v;
                  kept = λ k. inl refl;
                  told = inr (
                    x,
                    here,
                    inr (
                      done,
                      ap (λ n. record { value = n }) ((int_eq_iff _ _).0 agrees),
                      unfold accepted in refl,
                    ),
                  );
                })
        ]
      ]

      upload_found-IsServed :
          (hash_algo : Text) (r : Result LfsObject) (w : W)
          → Inv w
          → ((x : LfsObject) → r ≡ ok x → stored w oid.value ≡ some x)
          → ((e : GoError) → r ≡ err e → is_error e not_found ≡ true → stored w oid.value ≡ none)
          → Serves action oid size w (upload_found s oid size hash_algo answer r w)
      unfolding upload_found
      upload_found-IsServed hash_algo (err e) w v there missing =
          elim (Bool-cases (is_error e not_found)) [
            | inl t ↦ rw t (create_object-IsServed hash_algo w v (missing e refl t))
            | inr f ↦ rw f (refused-IsServed action oid size 500 _ w v)
          ]
      upload_found-IsServed hash_algo (ok x) w v there missing =
          present-IsServed x hash_algo w v (there x refl)

  IsServed-from :
      (action : Action) (oid : Oid) (size : Size) (w v w' : W) (answer : ResponseObject)
      → ((k : Text) → stored v k ≡ stored w k)
      → IsServed action oid size v answer w'
      → IsServed action oid size w answer w'
  IsServed-from action oid size w v w' answer same h = record {
    inv = h.inv;
    kept = λ k.
        subst
          (λ b.
            (stored w' k ≡ b)
            ⊎ ((oid.value ≡ k)
                × (b ≡ none)
                × ((x : LfsObject) × (stored w' k ≡ some x)
                    × (x.uploaded ≡ false)
                    × (x.size ≡ size))))
          (same k) (h.kept k);
    told = h.told;
  }

  -- For a valid OID and size, from a sound world, over a repository that keeps its promises: no
  -- object that is stored is touched, and at most the object that was asked for is added, waiting,
  -- in the wanted size. After an answer without an error the object is stored: it waits, in whatever
  -- size it was registered with, and the answer offers an upload to its URL and no download; or it is
  -- uploaded in the wanted size, and the answer offers nothing.
  pub handle_upload_object-IsServed :
      (base_url owner repo : Text) (oid : Oid) (size : Size) (hash_algo auth_header : Text) (w : W)
      → new_oid oid.value ≡ ok oid
      → new_size size.value ≡ ok size
      → Inv w
      → Serves
          (sent_to (s.urls.generate_upload_url base_url owner repo oid.value) auth_header)
          oid
          size
          w
          (handle_upload_object s base_url owner repo oid size hash_algo auth_header w)
  unfolding handle_upload_object upload_answer accepted
  handle_upload_object-IsServed base_url owner repo oid size hash_algo auth_header w hex sized v =
      let w' = (s.objects.find_by_oid oid w).1 in
      let same = λ (k : Text). store.find-stored oid w k v in
      let url = s.urls.generate_upload_url base_url owner repo oid.value in
      let action = sent_to url auth_header in
      IsServed-from action oid size w w' _ _ same (
        upload_found-IsServed action oid size
          (upload_answer s base_url owner repo oid size auth_header)
          (ap (λ a. some (record { upload = some a; download = none }))
            (action_at-sent_to url auth_header))
          hex sized hash_algo (s.objects.find_by_oid oid w).0 w' (store.find-Inv oid w v)
          (λ x e. same oid.value ∙ store.find-ok oid w x v e)
          (λ x e t. same oid.value ∙ store.find_missing oid w x v e t))
