-- ===== src/Infra/Oidc/Jwks/Source.antt =====
-- Where the key of a token comes from.
use cargohold.Exec.{Result, err, map_err, ok, then_ok}
use cargohold.Exec.Keeps.{
  attempt_returned, bind_returned, lift_returned, map_err-eq-ok, on_error_returned, pure_returned,
  then_ok-eq-ok,
}
use cargohold.Exec.Read.{read_limited, read_limited-length}
use cargohold.Failure.{wrapped}
use cargohold.Infra.CacheKeys.{oidc_jwks_key}
use cargohold.Infra.Oidc.Jwks.{
  HttpAnswer, JwkSet, JwksServices, PublicKey, cached_or_fetched, fetch_jwk_set, find_public_key,
  get_public_key, max_jwks_body_size, read_answer,
}
use cargohold.Infra.Oidc.Jwks.Laws.{IsKeyFound, find_key-IsKeyFound}
use cargohold.Prelude.{==_iff, Bool-cases, ap, inl, inr, length, refl, ◌==◌, ◌∙◌, ◌≡◌, ◌≤◌}
use cargohold.Prelude.Text.{Text}

module _ {W : Type 0} (s : JwksServices W) where
  -- A set that the cache answered, or that was read from an answer of the endpoint with status 200,
  -- of at most 1 MiB.
  pub data IsSource (jwks_url provider : Text) (w : W) : JwkSet → Type 0 where
    from_cache :
        (jwk_set : JwkSet)
        → (s.get_json (oidc_jwks_key provider) w).0 ≡ ok jwk_set
        → IsSource jwks_url provider w jwk_set
    from_endpoint :
        (jwk_set : JwkSet) (resp : HttpAnswer) (v : W) (body : Text)
        → (s.do_request jwks_url v).0 ≡ ok resp
        → resp.status_code ≡ 200
        → length body ≤ max_jwks_body_size
        → s.unmarshal body ≡ ok jwk_set
        → IsSource jwks_url provider w jwk_set

  read_answer-eq-ok :
      (resp : HttpAnswer) (jwk_set : JwkSet)
      → read_answer s resp ≡ ok jwk_set
      → (resp.status_code ≡ 200)
        × ((body : Text) × (length body ≤ max_jwks_body_size) × (s.unmarshal body ≡ ok jwk_set))
  unfolding read_answer
  read_answer-eq-ok resp jwk_set h = elim (Bool-cases (resp.status_code == 200)) [
    | inr wrong ↦ cc (rw wrong at h)
    | inl right ↦
        let h = rw right at h in
        let (body, got, h) =
          then_ok-eq-ok
            (map_err (wrapped "レスポンスボディの読み取りに失敗しました")
              (read_limited max_jwks_body_size resp.body resp.broken))
            _ h in
        let whole = map_err-eq-ok _ (read_limited max_jwks_body_size resp.body resp.broken) got in
        (
          (==_iff resp.status_code 200).0 right,
          (
            body,
            read_limited-length max_jwks_body_size resp.body resp.broken body whole,
            map_err-eq-ok _ (s.unmarshal body) h,
          ),
        )
  ]

  fetched-IsSource :
      (jwks_url provider : Text) (w u v : W) (jwk_set : JwkSet)
      → fetch_jwk_set s jwks_url u ≡ (ok jwk_set, v)
      → IsSource jwks_url provider w jwk_set
  unfolding fetch_jwk_set
  fetched-IsSource jwks_url provider w u v jwk_set h =
      let (_, u1, _, h) = bind_returned _ _ u v jwk_set h in
      let (resp, u2, asked, h) = bind_returned _ _ u1 v jwk_set h in
      let (fine, (body, small, parsed)) =
        read_answer-eq-ok resp jwk_set (lift_returned _ u2 v jwk_set h).0 in
      let got = on_error_returned _ _ resp u1 u2 asked in
      from_endpoint jwk_set resp u1 body (ap (λ (z : Result HttpAnswer × W). z.0) got) fine small
        parsed

  answered-IsKeyFound :
      (jwks_url key_id provider : Text) (w u v : W) (key : PublicKey) (cached : Result JwkSet)
      → (s.get_json (oidc_jwks_key provider) w).0 ≡ cached
      → (r : Result PublicKey) → (then_ok cached λ jwk_set. find_public_key s jwk_set key_id) ≡ r
      → cached_or_fetched s jwks_url key_id provider r u ≡ (ok key, v)
      → (jwk_set : JwkSet) × IsSource jwks_url provider w jwk_set
        × IsKeyFound s jwk_set.keys key_id key
  unfolding cached_or_fetched find_public_key
  answered-IsKeyFound jwks_url key_id provider w u v key cached e (ok k) is h =
      let (jwk_set, here, found) = then_ok-eq-ok cached _ is in
      let same = (pure_returned k key u v h).0 in
      (
        jwk_set,
        from_cache jwk_set (e ∙ here),
        find_key-IsKeyFound s jwk_set.keys key_id key (found ∙ ap ok same),
      )
  answered-IsKeyFound jwks_url key_id provider w u v key cached e (err x) is h =
      let (jwk_set, u1, fetched, h) = bind_returned _ _ u v key h in
      let (_, u2, _, h) = bind_returned _ _ u1 v key h in
      let got = on_error_returned _ _ jwk_set u u1 fetched in
      (
        jwk_set,
        fetched-IsSource jwks_url provider w u u1 jwk_set got,
        find_key-IsKeyFound s jwk_set.keys key_id key (lift_returned _ u2 v key h).0,
      )

  -- A public key that was returned without an error is that of the first RSA entry under the asked
  -- number, in a set that the cache held or the endpoint gave, with an exponent in range.
  pub get_public_key-IsKeyFound :
      (jwks_url key_id provider : Text) (w v : W) (key : PublicKey)
      → get_public_key s jwks_url key_id provider w ≡ (ok key, v)
      → (jwk_set : JwkSet) × IsSource jwks_url provider w jwk_set
        × IsKeyFound s jwk_set.keys key_id key
  unfolding get_public_key
  get_public_key-IsKeyFound jwks_url key_id provider w v key h =
      let (cached, u, asked, h) = bind_returned _ _ w v key h in
      answered-IsKeyFound jwks_url key_id provider w u v key cached
        (attempt_returned _ cached w u asked).0
        (then_ok cached λ jwk_set. find_public_key s jwk_set key_id) refl h
