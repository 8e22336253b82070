-- ===== src/Infra/Caching/Store.antt =====
-- The caching repository before the one behind it: what it answers, and when cache and repository
-- still agree after a write.
use cargohold.Domain.Object.{LfsObject}
use cargohold.Domain.Object.Laws.{IsObject}
use cargohold.Domain.Oid.{Oid}
use cargohold.Exec.{Exec, Result, err, ok, ◌>>=◌}
use cargohold.Exec.Keeps.{Result-cases}
use cargohold.Failure.{GoError, is_error, not_found}
use cargohold.Infra.CacheKeys.{metadata_key, metadata_ttl}
use cargohold.Infra.Caching.{
  CacheClient, CachedMetadata, cache_metadata, caching_repository, metadata_of, save, update,
}
use cargohold.Infra.Caching.Laws.{
  Coherent, Coherent-lost, IsBacking, IsCache, SameButTimes, View, cache_metadata-Coherent,
  cache_metadata-stored,
}
use cargohold.Infra.Caching.Lookup.{find_by_oid-IsAnswer}
use cargohold.Ports.{LfsObjectRepository}
use cargohold.Ports.Promises.{IsWritten, at_columns, revised}
use cargohold.Prelude.{inl, inr, none, refl, some, sym, true, ◌∙◌, ◌≡◌, ◌⊎◌}
use cargohold.Prelude.Text.{Text}

module _ {W : Type 0} (repo : LfsObjectRepository W) (client : CacheClient W)
    (cached : View W CachedMetadata) (stored : View W LfsObject) (Inv : W → Type 0)
    (cache : IsCache client cached stored Inv) (backing : IsBacking repo cached stored Inv) where
  open backing use {store}

  abbrev IsCoherent : W → Type 0
  IsCoherent w = Coherent repo client cached stored Inv cache backing w

  -- A run of a write that leaves no old entry behind: if it returned, the cache took the new entry, and
  -- if it failed, it has not taken place.
  pub record IsClean (m : Exec W (Unit {0})) (x : LfsObject) (w : W) : Type 0 where
    pub taken :
        (m w).0 ≡ ok tt
        → (client.set_json (metadata_key x.oid.value) (metadata_of x) metadata_ttl (m w).1).0
          ≡ ok tt
    pub undone : (e : GoError) → (m w).0 ≡ err e → (k : Text) → stored (m w).1 k ≡ stored w k

  -- Both writes: the repository's, and then the entry.
  abbrev written : Exec W (Unit {0}) → LfsObject → Exec W (Unit {0})
  written m x = m >>= λ _. cache_metadata repo client x.oid x

  module _ (m : Exec W (Unit {0})) (x y : LfsObject) (w : W) (m-Inv : Inv (m w).1)
      (m-ok : (m w).0 ≡ ok tt → stored (m w).1 x.oid.value ≡ some y)
      (m-stored : (k : Text) → IsWritten x.oid.value k y (stored w k) (stored (m w).1 k))
      (m-cached : (j : Text) → cached (m w).1 j ≡ cached w j) where
    written-cases :
        (((m w).0 ≡ ok tt)
          × (written m x w ≡ (ok tt, (cache_metadata repo client x.oid x (m w).1).1)))
        ⊎ ((e : GoError) × ((m w).0 ≡ err e) × (written m x w ≡ (err e, (m w).1)))
    unfolding ◌>>=◌ cache_metadata
    written-cases = elim (Result-cases (m w).0) [
      | inl (u, e) ↦ inl (e, rw e)
      | inr (x, e) ↦ inr (x, e, rw e)
    ]

    written-Coherent :
        IsObject x → SameButTimes x y → IsClean m x w → IsCoherent w → IsCoherent (written m x w).1
    written-Coherent good alike clean h = elim written-cases [
      | inl (done, e) ↦ rw e (
          cache_metadata-Coherent repo client cached stored Inv cache backing x.oid x y (m w).1
            m-Inv good (m-ok done) alike
            (λ k c other p.
              let (z, made, is, (u, there, like)) =
                h.agrees k c (sym (m-cached (metadata_key k)) ∙ p) in
              elim (m-stored k) [
                | inl same ↦ (z, made, is, (u, same ∙ there, like))
                | inr (at, _) ↦ absurd (other at)
              ])
            (inl (clean.taken done)))
      | inr (z, failed, e) ↦ rw e (
          Coherent-lost repo client cached stored Inv cache backing w (m w).1 h m-Inv
            (clean.undone z failed) (λ j c p. sym (m-cached j) ∙ p))
    ]

    written-ok : (written m x w).0 ≡ ok tt → stored (written m x w).1 x.oid.value ≡ some y
    written-ok p = elim written-cases [
      | inl (done, e) ↦ rw e (
          cache_metadata-stored repo client cached stored Inv cache backing x.oid x (m w).1
            x.oid.value
          ∙ m-ok done)
      | inr (z, failed, e) ↦ cc (rw e at p)
    ]

    written-stored :
        (k : Text) → IsWritten x.oid.value k y (stored w k) (stored (written m x w).1 k)
    written-stored k = elim written-cases [
      | inl (done, e) ↦
          rw
            (e, cache_metadata-stored repo client cached stored Inv cache backing x.oid x (m w).1 k)
            (m-stored k)
      | inr (_, failed, e) ↦ rw e (m-stored k)
    ]

  -- What a write of `x` comes to that leaves `y` in the store.
  pub record IsWriting (m : Exec W (Unit {0})) (x y : LfsObject) (w : W) (r : Result (Unit {0}) × W)
      : Type 0 where
    pub done : r.0 ≡ ok tt → stored r.1 x.oid.value ≡ some y
    pub written_at : (k : Text) → IsWritten x.oid.value k y (stored w k) (stored r.1 k)
    pub inv : IsClean m x w → IsCoherent r.1

  save-IsWriting :
      (x : LfsObject) (w : W)
      → IsObject x
      → IsCoherent w
      → IsWriting (repo.save x) x (at_columns store.kept x) w (save repo client x w)
  unfolding save
  save-IsWriting x w good h =
      let y = at_columns store.kept x in
      let inv = store.save-Inv x w good h.inv in
      let done = store.save-ok x w good h.inv in
      let at = λ (k : Text). store.save-stored x w k good h.inv in
      let same = backing.save-cached x w in
      record {
        done = written-ok (repo.save x) x y w inv done at same;
        written_at = written-stored (repo.save x) x y w inv done at same;
        inv = λ c. written-Coherent (repo.save x) x y w inv done at same good refl c h;
      }

  update-IsWriting :
      (x z : LfsObject) (w : W)
      → IsObject x
      → stored w x.oid.value ≡ some z
      → IsCoherent w
      → IsWriting (repo.update x) x (revised store.kept z x) w (update repo client x w)
  unfolding update
  update-IsWriting x z w good old h =
      let y = revised store.kept z x in
      let inv = store.update-Inv x z w good old h.inv in
      let done = store.update-ok x z w good old h.inv in
      let at = λ (k : Text). store.update-stored x z w k good old h.inv in
      let same = backing.update-cached x w in
      record {
        done = written-ok (repo.update x) x y w inv done at same;
        written_at = written-stored (repo.update x) x y w inv done at same;
        inv = λ c. written-Coherent (repo.update x) x y w inv done at same good refl c h;
      }

  -- What the caching repository promises of the objects that the repository behind it stores.
  pub record IsCachedStore (cached_repo : LfsObjectRepository W) : Type 0 where
    pub find-inv : (o : Oid) (w : W) → IsCoherent w → IsCoherent (cached_repo.find_by_oid o w).1
    pub find-stored :
        (o : Oid) (w : W) (k : Text)
        → IsCoherent w
        → stored (cached_repo.find_by_oid o w).1 k ≡ stored w k
    pub find-ok :
        (o : Oid) (w : W) (x : LfsObject)
        → IsCoherent w
        → (cached_repo.find_by_oid o w).0 ≡ ok x
        → (y : LfsObject) × (stored w o.value ≡ some y) × SameButTimes x y
    pub find_missing :
        (o : Oid) (w : W) (e : GoError)
        → IsCoherent w
        → (cached_repo.find_by_oid o w).0 ≡ err e
        → is_error e not_found ≡ true
        → stored w o.value ≡ none
    pub saving :
        (x : LfsObject) (w : W)
        → IsObject x
        → IsCoherent w
        → IsWriting (repo.save x) x (at_columns store.kept x) w (cached_repo.save x w)
    pub updating :
        (x z : LfsObject) (w : W)
        → IsObject x
        → stored w x.oid.value ≡ some z
        → IsCoherent w
        → IsWriting (repo.update x) x (revised store.kept z x) w (cached_repo.update x w)

  -- Over a repository and a cache, from a world where every entry of the cache agrees with what is
  -- stored: a lookup changes no stored object and keeps the agreement, whatever of the cache fails;
  -- its answer without an error is the stored object but for its times, and its answer that there is
  -- none is true. A write leaves under its OID what was there or what the repository behind the
  -- cache writes, and the latter if it returned, and no other object is touched. It keeps the
  -- agreement if it returned and the cache took the new entry, or if it failed and has not taken
  -- place.
  pub caching_repository-IsCachedStore : IsCachedStore (caching_repository repo client)
  unfolding caching_repository
  caching_repository-IsCachedStore = record {
    find-inv =
        λ o w h. (find_by_oid-IsAnswer repo client cached stored Inv cache backing o w h).inv;
    find-stored =
        λ o w k h. (find_by_oid-IsAnswer repo client cached stored Inv cache backing o w h).same k;
    find-ok = λ o w x h e.
        (find_by_oid-IsAnswer repo client cached stored Inv cache backing o w h).found x e;
    find_missing = λ o w e h p t.
        (find_by_oid-IsAnswer repo client cached stored Inv cache backing o w h).missing e p t;
    saving = save-IsWriting;
    updating = update-IsWriting;
  }
