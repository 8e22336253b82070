-- ===== src/Infra/Allowlist/Laws.antt =====
-- A lookup in the cached allowlist answers what the list says.
use cargohold.Domain.Repository.{AllowedRepository, full_name}
use cargohold.Exec.{Result, ok, ◌>>=◌}
use cargohold.Exec.Keeps.{Result-cases, ok_inj}
use cargohold.Infra.Allowlist.{
  AllowlistCacheClient, allowed_or_stored, cache_value, check_cache, get_cache_key, is_allowed,
  set_cache,
}
use cargohold.Infra.CacheKeys.{oidc_github_repo_key, repository_cache_ttl}
use cargohold.Infra.CacheKeys.Laws.{github_repo, key_of_injective}
use cargohold.Prelude.{Bool, Option, ap, false, inl, inr, refl, some, sym, true, ℕ, ◌∙◌, ◌≡◌, ◌⊎◌}
use cargohold.Prelude.Text.{Text, codes, text_eq}
use cargohold.Usecase.Auth.{RepositoryAllowlist}

module _ {W : Type 0} where
  -- `allowed w name` is what the list says of the repository of this full name.
  pub record IsAllowlist (repo : RepositoryAllowlist W) (allowed : W → Text → Bool)
      (cached : W → Text → Option Text) : Type 0 where
    pub ask-allowed :
        (a : AllowedRepository) (w : W) (n : Text) → allowed (repo.is_allowed a w).1 n ≡ allowed w n
    pub ask-cached :
        (a : AllowedRepository) (w : W) (k : Text) → cached (repo.is_allowed a w).1 k ≡ cached w k
    pub ask-ok :
        (a : AllowedRepository) (w : W) (b : Bool)
        → (repo.is_allowed a w).0 ≡ ok b
        → b ≡ allowed w (full_name a.identifier)

  pub record IsAllowlistCache (client : AllowlistCacheClient W) (allowed : W → Text → Bool)
      (cached : W → Text → Option Text) : Type 0 where
    pub get-allowed : (k : Text) (w : W) (n : Text) → allowed (client.get k w).1 n ≡ allowed w n
    pub get-cached :
        (k : Text) (w : W) (j v : Text) → cached (client.get k w).1 j ≡ some v → cached w j ≡ some v
    pub get-ok : (k : Text) (w : W) (v : Text) → (client.get k w).0 ≡ ok v → cached w k ≡ some v
    pub set-allowed :
        (k v : Text) (ttl : ℕ) (w : W) (n : Text) → allowed (client.set k v ttl w).1 n ≡ allowed w n
    pub set-cached :
        (k v : Text) (ttl : ℕ) (w : W) (j u : Text)
        → cached (client.set k v ttl w).1 j ≡ some u
        → ((k ≡ j) × (u ≡ v)) ⊎ (cached w j ≡ some u)

module _ {W : Type 0} (repo : RepositoryAllowlist W) (client : AllowlistCacheClient W)
    (allowed : W → Text → Bool) (cached : W → Text → Option Text)
    (stored : IsAllowlist repo allowed cached)
    (cache : IsAllowlistCache client allowed cached) where
  -- Every cached answer is the list's.
  abbrev pub Current : W → Type 0
  Current w =
      (n v : Text)
      → cached w (oidc_github_repo_key n) ≡ some v
      → text_eq v (codes "true") ≡ allowed w n

  value-true : (b : Bool) → text_eq (cache_value b) (codes "true") ≡ b
  unfolding cache_value text_eq
  value-true true = refl
  value-true false = refl

  -- Caching what the list says.
  set_cache-Current :
      (n : Text) (b : Bool) (w : W)
      → Current w
      → b ≡ allowed w n
      → Current (set_cache repo client (oidc_github_repo_key n) b w).1
  unfolding set_cache ◌>>=◌
  set_cache-Current n b w h true_answer m v e =
      let same =
        cache.set-allowed (oidc_github_repo_key n) (cache_value b) repository_cache_ttl w m in
      elim (cache.set-cached (oidc_github_repo_key n) (cache_value b) repository_cache_ttl w
        (oidc_github_repo_key m) v e) [
          | inl (at, is) ↦
              let here = (key_of_injective github_repo github_repo n m at).1 in
              ap (λ u. text_eq u (codes "true")) is
              ∙ (value-true b ∙ (true_answer ∙ (ap (allowed w) here ∙ sym same)))
          | inr old ↦ h m v old ∙ sym same
        ]

  get-Current : (k : Text) (w : W) → Current w → Current (client.get k w).1
  get-Current k w h n v e =
      h n v (cache.get-cached k w (oidc_github_repo_key n) v e) ∙ sym (cache.get-allowed k w n)

  ask-Current : (a : AllowedRepository) (w : W) → Current w → Current (repo.is_allowed a w).1
  ask-Current a w h n v e =
      h n v (sym (stored.ask-cached a w (oidc_github_repo_key n)) ∙ e)
      ∙ sym (stored.ask-allowed a w n)

  pub record IsAnswered (a : AllowedRepository) (w : W) (r : Result Bool × W) : Type 0 where
    pub current : Current r.1
    pub right : (b : Bool) → r.0 ≡ ok b → b ≡ allowed w (full_name a.identifier)

  abbrev looked : AllowedRepository → W → Result Text × W
  looked a w = client.get (oidc_github_repo_key (full_name a.identifier)) w

  abbrev asked : AllowedRepository → W → Result Bool × W
  asked a w = repo.is_allowed a (looked a w).1

  -- Where every cached answer is the list's, `IsAllowed` answers what the list says, from the cache
  -- or not, and every cached answer is the list's afterwards.
  pub is_allowed-IsAnswered :
      (a : AllowedRepository) (w : W) → Current w → IsAnswered a w (is_allowed repo client a w)
  unfolding is_allowed allowed_or_stored check_cache get_cache_key ◌>>=◌
  is_allowed-IsAnswered a w h =
      let n = full_name a.identifier in
      let at_v = get-Current (oidc_github_repo_key n) w h in
      let same = cache.get-allowed (oidc_github_repo_key n) w n in
      elim (Result-cases (looked a w).0) [
        | inl (v, hit) ↦ rw hit (record {
          current = at_v;
          right = λ b e. sym (ok_inj e) ∙ h n v (cache.get-ok (oidc_github_repo_key n) w v hit);
        })
        | inr (x, miss) ↦ elim (Result-cases (asked a w).0) [
          | inr (y, failed) ↦
              rw (miss, failed)
                (record { current = ask-Current a (looked a w).1 at_v; right = λ b e. cc e })
          | inl (b, said) ↦
              let told = stored.ask-ok a (looked a w).1 b said in
              rw (miss, said)
                (record {
                  current =
                      set_cache-Current n b (asked a w).1 (ask-Current a (looked a w).1 at_v)
                        (told ∙ sym (stored.ask-allowed a (looked a w).1 n));
                  right = λ c e. sym (ok_inj e) ∙ (told ∙ same);
                })
        ]
      ]
