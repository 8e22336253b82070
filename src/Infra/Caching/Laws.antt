-- ===== src/Infra/Caching/Laws.antt =====
-- What is asked of the cache and of the repository behind it, and the agreement of the two. An entry
-- may be lost at any time. After a write of an entry its key holds the new entry, the old one or
-- none; the old one only if the write failed.
use mathlib.Core.Path.{subst}
use cargohold.Domain.Object.{LfsObject}
use cargohold.Domain.Object.Laws.{IsObject, reconstruct_of_IsObject}
use cargohold.Domain.Oid.{Oid}
use cargohold.Exec.{ok, ◌>>=◌}
use cargohold.Infra.CacheKeys.{metadata_key, metadata_ttl}
use cargohold.Infra.CacheKeys.Laws.{key_of_injective, metadata}
use cargohold.Infra.Caching.{CacheClient, CachedMetadata, cache_metadata, metadata_of, rebuild}
use cargohold.Ports.{LfsObjectRepository}
use cargohold.Ports.Promises.{IsObjectStore}
use cargohold.Prelude.{Option, inl, inr, some, sym, ℕ, ◌∙◌, ◌≡◌, ◌≢◌, ◌⊎◌}
use cargohold.Prelude.Text.{Text, Text-cases}

abbrev pub View : Type 0 → Type 0 → Type 0
View W A = W → Text → Option A

module _ {W : Type 0} where
  pub record IsCache (client : CacheClient W) (cached : View W CachedMetadata)
      (stored : View W LfsObject) (Inv : W → Type 0) : Type 0 where
    pub get-Inv : (k : Text) (w : W) → Inv w → Inv (client.get_json k w).1
    pub get-stored : (k : Text) (w : W) (j : Text) → stored (client.get_json k w).1 j ≡ stored w j
    pub get-cached :
        (k : Text) (w : W) (j : Text) (c : CachedMetadata)
        → cached (client.get_json k w).1 j ≡ some c
        → cached w j ≡ some c
    pub get-ok :
        (k : Text) (w : W) (c : CachedMetadata)
        → (client.get_json k w).0 ≡ ok c
        → cached w k ≡ some c
    pub set-Inv :
        (k : Text) (c : CachedMetadata) (ttl : ℕ) (w : W)
        → Inv w
        → Inv (client.set_json k c ttl w).1
    pub set-stored :
        (k : Text) (c : CachedMetadata) (ttl : ℕ) (w : W) (j : Text)
        → stored (client.set_json k c ttl w).1 j ≡ stored w j
    pub set-cached :
        (k : Text) (c : CachedMetadata) (ttl : ℕ) (w : W) (j : Text) (d : CachedMetadata)
        → cached (client.set_json k c ttl w).1 j ≡ some d
        → ((k ≡ j) × (d ≡ c)) ⊎ (cached w j ≡ some d)
    pub set-ok :
        (k : Text) (c : CachedMetadata) (ttl : ℕ) (w : W) (d : CachedMetadata)
        → (client.set_json k c ttl w).0 ≡ ok tt
        → cached (client.set_json k c ttl w).1 k ≡ some d
        → d ≡ c
    pub delete-Inv : (k : Text) (w : W) → Inv w → Inv (client.delete k w).1
    pub delete-stored : (k : Text) (w : W) (j : Text) → stored (client.delete k w).1 j ≡ stored w j
    pub delete-cached :
        (k : Text) (w : W) (j : Text) (c : CachedMetadata)
        → cached (client.delete k w).1 j ≡ some c
        → cached w j ≡ some c

  -- The repository behind the cache, which does not touch the cache.
  pub record IsBacking (repo : LfsObjectRepository W) (cached : View W CachedMetadata)
      (stored : View W LfsObject) (Inv : W → Type 0) : Type 0 where
    pub store : IsObjectStore repo stored Inv
    pub find-cached : (o : Oid) (w : W) (j : Text) → cached (repo.find_by_oid o w).1 j ≡ cached w j
    pub save-cached : (x : LfsObject) (w : W) (j : Text) → cached (repo.save x w).1 j ≡ cached w j
    pub update-cached :
        (x : LfsObject) (w : W) (j : Text) → cached (repo.update x w).1 j ≡ cached w j

pub metadata_key_injective : (i j : Text) → metadata_key i ≡ metadata_key j → i ≡ j
metadata_key_injective i j h = (key_of_injective metadata metadata i j h).1

-- What was cached of an object gives it back.
pub rebuild-metadata_of : (x : LfsObject) → IsObject x → rebuild (metadata_of x) ≡ ok x
unfolding rebuild metadata_of
rebuild-metadata_of x v = rw (v.hex, v.sized) (reconstruct_of_IsObject x v)

-- `y` is `x` but for its times.
abbrev pub SameButTimes : LfsObject → LfsObject → Type 0
SameButTimes x y = y ≡ record x { created_at = y.created_at; updated_at = y.updated_at }

module _ {W : Type 0} (repo : LfsObjectRepository W) (client : CacheClient W)
    (cached : View W CachedMetadata) (stored : View W LfsObject) (Inv : W → Type 0)
    (cache : IsCache client cached stored Inv) (backing : IsBacking repo cached stored Inv) where
  open backing use {store}

  -- The entry is that of an object as the constructors make it, and the object that is stored is the
  -- same but for its times.
  abbrev pub Agrees : W → Text → CachedMetadata → Type 0
  Agrees w k c =
      (x : LfsObject) × IsObject x
      × (c ≡ metadata_of x)
      × ((y : LfsObject) × (stored w k ≡ some y) × SameButTimes x y)

  -- Every entry of the cache agrees with what is stored.
  pub record Coherent (w : W) : Type 0 where
    pub inv : Inv w
    pub agrees : (k : Text) (c : CachedMetadata) → cached w (metadata_key k) ≡ some c → Agrees w k c

  -- Steps that leave the stored objects alone and add nothing to the cache.
  pub Coherent-lost :
      (w v : W)
      → Coherent w
      → Inv v
      → ((k : Text) → stored v k ≡ stored w k)
      → ((j : Text) (c : CachedMetadata) → cached v j ≡ some c → cached w j ≡ some c)
      → Coherent v
  Coherent-lost w v h inv same lost = record {
    inv = inv;
    agrees = λ k c e.
        let (x, good, is, (y, there, alike)) = h.agrees k c (lost (metadata_key k) c e) in
        (x, good, is, (y, same k ∙ there, alike));
  }

  pub get-Coherent : (k : Text) (w : W) → Coherent w → Coherent (client.get_json k w).1
  get-Coherent k w h =
      Coherent-lost w _ h (cache.get-Inv k w h.inv) (cache.get-stored k w) (cache.get-cached k w)

  pub find-Coherent : (o : Oid) (w : W) → Coherent w → Coherent (repo.find_by_oid o w).1
  find-Coherent o w h =
      Coherent-lost w _ h (store.find-Inv o w h.inv) (λ k. store.find-stored o w k h.inv)
        λ j c e. sym (backing.find-cached o w j) ∙ e

  -- Caching an object that is stored. The entry before it may be out of date where the cache takes
  -- the new one.
  pub cache_metadata-Coherent :
      (oid : Oid) (x y : LfsObject) (w : W)
      → Inv w
      → IsObject x
      → stored w oid.value ≡ some y
      → SameButTimes x y
      → ((k : Text) (c : CachedMetadata)
          → oid.value ≢ k
          → cached w (metadata_key k) ≡ some c
          → Agrees w k c)
      → ((client.set_json (metadata_key oid.value) (metadata_of x) metadata_ttl w).0 ≡ ok tt)
        ⊎ ((c : CachedMetadata) → cached w (metadata_key oid.value) ≡ some c → Agrees w oid.value c)
      → Coherent (cache_metadata repo client oid x w).1
  unfolding cache_metadata ◌>>=◌
  cache_metadata-Coherent oid x y w inv good here alike others own = record {
    inv = cache.set-Inv (metadata_key oid.value) (metadata_of x) metadata_ttl w inv;
    agrees = λ k c e. moved k c (go k c e);
  }
    where
      after : W
      after = (client.set_json (metadata_key oid.value) (metadata_of x) metadata_ttl w).1

      moved : (k : Text) (c : CachedMetadata) → Agrees w k c → Agrees after k c
      moved k c (z, made, is, (u, there, like)) = (
        z,
        made,
        is,
        (
          u,
          cache.set-stored (metadata_key oid.value) (metadata_of x) metadata_ttl w k ∙ there,
          like,
        ),
      )

      new_entry : (k : Text) (c : CachedMetadata) → oid.value ≡ k → c ≡ metadata_of x → Agrees w k c
      new_entry k c at is = (x, good, is, (y, subst (λ j. stored w j ≡ some y) at here, alike))

      old_entry :
          (k : Text) (c : CachedMetadata)
          → oid.value ≡ k
          → cached after (metadata_key k) ≡ some c
          → cached w (metadata_key k) ≡ some c
          → Agrees w k c
      old_entry k c at e old = elim own [
        | inl taken ↦ new_entry k c at (
            cache.set-ok (metadata_key oid.value) (metadata_of x) metadata_ttl w c taken
              (subst (λ j. cached after (metadata_key j) ≡ some c) (sym at) e))
        | inr agreed ↦
            subst (λ j. Agrees w j c) at
              (agreed c (subst (λ j. cached w (metadata_key j) ≡ some c) (sym at) old))
      ]

      go : (k : Text) (c : CachedMetadata) → cached after (metadata_key k) ≡ some c → Agrees w k c
      go k c e =
          elim (cache.set-cached (metadata_key oid.value) (metadata_of x) metadata_ttl w
            (metadata_key k) c e) [
              | inl (at, is) ↦ new_entry k c (metadata_key_injective oid.value k at) is
              | inr old ↦ elim (Text-cases oid.value k) [
                | inl at ↦ old_entry k c at e old
                | inr other ↦ others k c other old
              ]
            ]

  pub cache_metadata-stored :
      (oid : Oid) (x : LfsObject) (w : W) (k : Text)
      → stored (cache_metadata repo client oid x w).1 k ≡ stored w k
  unfolding cache_metadata ◌>>=◌
  cache_metadata-stored oid x w k =
      cache.set-stored (metadata_key oid.value) (metadata_of x) metadata_ttl w k
