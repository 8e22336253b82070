-- ===== src/Infra/Caching/Lookup.antt =====
-- What a lookup in the caching repository comes to.
use mathlib.Core.Path.{subst}
use cargohold.Domain.Object.{LfsObject}
use cargohold.Domain.Oid.{Oid}
use cargohold.Exec.{Result, err, ok, then_ok, ◌>>=◌}
use cargohold.Exec.Keeps.{Result-cases, ok_inj, then_ok-eq-ok}
use cargohold.Failure.{GoError, is_error, not_found}
use cargohold.Infra.CacheKeys.{metadata_key}
use cargohold.Infra.Caching.{
  CacheClient, CachedMetadata, cache_metadata, cached_or_stored, find_by_oid, rebuild,
}
use cargohold.Infra.Caching.Laws.{
  Coherent, IsBacking, IsCache, SameButTimes, View, cache_metadata-Coherent, cache_metadata-stored,
  find-Coherent, get-Coherent, rebuild-metadata_of,
}
use cargohold.Ports.{LfsObjectRepository}
use cargohold.Prelude.{ap, inl, inr, none, refl, some, sym, true, ◌∙◌, ◌≡◌, ◌⊎◌}
use cargohold.Prelude.Text.{Text}

module _ {W : Type 0} (repo : LfsObjectRepository W) (client : CacheClient W)
    (cached : View W CachedMetadata) (stored : View W LfsObject) (Inv : W → Type 0)
    (cache : IsCache client cached stored Inv) (backing : IsBacking repo cached stored Inv) where
  open backing use {store}

  abbrev IsCoherent : W → Type 0
  IsCoherent w = Coherent repo client cached stored Inv cache backing w

  -- the world after the lookup in the cache
  abbrev asked : Oid → W → Result CachedMetadata × W
  asked oid w = client.get_json (metadata_key oid.value) w

  -- the world after the repository has answered and the cache is filled
  abbrev filled : Oid → LfsObject → W → W
  filled oid x w = (cache_metadata repo client oid x (repo.find_by_oid oid (asked oid w).1).1).1

  -- A hit, a miss that the repository answers, or the repository's error.
  find_by_oid-cases :
      (oid : Oid) (w : W)
      → ((x : LfsObject) × (then_ok (asked oid w).0 rebuild ≡ ok x)
          × (find_by_oid repo client oid w ≡ (ok x, (asked oid w).1)))
        ⊎ (((x : LfsObject) × ((repo.find_by_oid oid (asked oid w).1).0 ≡ ok x)
              × (find_by_oid repo client oid w ≡ (ok x, filled oid x w)))
            ⊎ ((e : GoError) × ((repo.find_by_oid oid (asked oid w).1).0 ≡ err e)
                × (find_by_oid repo client oid w
                    ≡ (err e, (repo.find_by_oid oid (asked oid w).1).1))))
  unfolding find_by_oid cached_or_stored cache_metadata ◌>>=◌
  find_by_oid-cases oid w = elim (Result-cases (then_ok (asked oid w).0 rebuild)) [
    | inl (x, hit) ↦ inl (x, hit, rw hit)
    | inr (e, miss) ↦ elim (Result-cases (repo.find_by_oid oid (asked oid w).1).0) [
      | inl (x, there) ↦ inr (inl (x, there, rw (miss, there)))
      | inr (x, missing) ↦ inr (inr (x, missing, rw (miss, missing)))
    ]
  ]

  -- The stored object under an OID is this one but for its times.
  abbrev pub Holds : Oid → W → LfsObject → Type 0
  Holds oid w x = (y : LfsObject) × (stored w oid.value ≡ some y) × SameButTimes x y

  -- A hit is the stored object, but for its times.
  hit-stored :
      (oid : Oid) (w : W) (x : LfsObject)
      → IsCoherent w
      → then_ok (asked oid w).0 rebuild ≡ ok x
      → Holds oid w x
  hit-stored oid w x h hit =
      let (c, got, built) = then_ok-eq-ok (asked oid w).0 rebuild hit in
      let (z, good, is, found) =
        h.agrees oid.value c (cache.get-ok (metadata_key oid.value) w c got) in
      subst (Holds oid w)
        (ok_inj (sym (rebuild-metadata_of z good) ∙ (ap rebuild (sym is) ∙ built))) found

  -- What a lookup comes to: a coherent world with the same objects, and a true answer.
  pub record IsAnswer (oid : Oid) (w : W) (r : Result LfsObject × W) : Type 0 where
    pub inv : IsCoherent r.1
    pub same : (k : Text) → stored r.1 k ≡ stored w k
    pub found : (x : LfsObject) → r.0 ≡ ok x → Holds oid w x
    pub missing :
        (e : GoError) → r.0 ≡ err e → is_error e not_found ≡ true → stored w oid.value ≡ none

  pub find_by_oid-IsAnswer :
      (oid : Oid) (w : W) → IsCoherent w → IsAnswer oid w (find_by_oid repo client oid w)
  find_by_oid-IsAnswer oid w h =
      let v = (asked oid w).1 in
      let at_v =
        get-Coherent repo client cached stored Inv cache backing (metadata_key oid.value) w h in
      let same_v = cache.get-stored (metadata_key oid.value) w in
      let u = (repo.find_by_oid oid v).1 in
      let at_u = find-Coherent repo client cached stored Inv cache backing oid v at_v in
      let same_u = λ (k : Text). store.find-stored oid v k at_v.inv ∙ same_v k in
      elim (find_by_oid-cases oid w) [
        | inl (x, hit, e) ↦ rw e (record {
          inv = at_v;
          same = same_v;
          found = λ y p. subst (Holds oid w) (ok_inj p) (hit-stored oid w x h hit);
          missing = λ e p. cc p;
        })
        | inr (inl (x, there, e)) ↦
            let at_v_too = store.find-ok oid v x at_v.inv there in
            let here = sym (same_v oid.value) ∙ at_v_too in
            rw e (record {
              inv =
                  cache_metadata-Coherent repo client cached stored Inv cache backing oid x x u
                    at_u.inv (store.stored-IsObject v oid.value x at_v.inv at_v_too).0
                    (same_u oid.value ∙ here) refl (λ k c _ p. at_u.agrees k c p)
                    (inr (at_u.agrees oid.value));
              same = λ k.
                  cache_metadata-stored repo client cached stored Inv cache backing oid x u k
                  ∙ same_u k;
              found = λ y p. subst (Holds oid w) (ok_inj p) (x, here, refl);
              missing = λ e p. cc p;
            })
        | inr (inr (x, missing, e)) ↦ rw e (record {
          inv = at_u;
          same = same_u;
          found = λ y p. cc p;
          missing = λ y p t.
              sym (same_v oid.value)
              ∙ store.find_missing oid v x at_v.inv missing
                  (subst (λ e. is_error e not_found ≡ true) (cc p) t);
        })
      ]
