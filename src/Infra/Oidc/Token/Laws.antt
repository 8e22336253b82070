-- ===== src/Infra/Oidc/Token/Laws.antt =====
-- What an accepted token says.
use mathlib.Core.Path.{subst}
use cargohold.Domain.User.{GitHubUserInfo}
use cargohold.Exec.{Result, err, ok}
use cargohold.Exec.Keeps.{
  bind_returned, lift_returned, ok_inj, on_error_returned, pure_returned, raise_returned,
  then_ok-eq-ok,
}
use cargohold.Failure.{invalid_token, sentinel, wrapped}
use cargohold.Infra.Oidc.Jwks.{JwkSet, JwksServices, PublicKey}
use cargohold.Infra.Oidc.Jwks.Laws.{IsKeyFound}
use cargohold.Infra.Oidc.Jwks.Source.{IsSource, get_public_key-IsKeyFound}
use cargohold.Infra.Oidc.Token.{
  Claim, Claims, Parse, Token, TokenHeader, array_claim, check_audience, check_issuer, claims_of,
  git_hub_claims, git_hub_issuer, has_audience, key_for, other_claim, require, text_claim,
  text_of_claim, token_key, validate_audience, validate_issuer, verify_id_token, verify_jwt,
}
use cargohold.Prelude.{
  Bool-cases, List, Option, [], ap, inl, inr, none, refl, some, some_inj, sym, true, ◌++◌, ◌∷◌, ◌≡◌,
}
use cargohold.Prelude.Text.{Text, codes, text_eq, text_eq_iff}

module _ {W : Type 0} (s : JwksServices W) (parse : Parse W) where
  -- The audience is the one expected, or among those of an array.
  pub data IsAudience (audience : Text) : Option Claim → Type 0 where
    exactly : IsAudience audience (some (text_claim audience))
    among :
        (before after : List (Option Text))
        → IsAudience audience (some (array_claim (before ++ (some audience ∷ after))))

  has_audience-split :
      (l : List (Option Text)) (audience : Text)
      → has_audience l audience ≡ true
      → (before after : List (Option Text)) × (l ≡ before ++ (some audience ∷ after))
  unfolding has_audience
  has_audience-split [] audience h = cc h
  has_audience-split (none ∷ l) audience h =
      let (before, after, e) = has_audience-split l audience h in
      (none ∷ before, after, ap (λ (x : List (Option Text)). none ∷ x) e)
  has_audience-split (some a ∷ l) audience h = elim (Bool-cases (text_eq a audience)) [
    | inl same ↦ ([], l, ap (λ x. some x ∷ l) ((text_eq_iff a audience).0 same))
    | inr other ↦
        let (before, after, e) = has_audience-split l audience (rw other at h) in
        (some a ∷ before, after, ap (λ (x : List (Option Text)). some a ∷ x) e)
  ]

  check_audience-IsAudience :
      (c : Option Claim) (audience : Text)
      → check_audience c audience ≡ ok tt
      → IsAudience audience c
  unfolding check_audience
  check_audience-IsAudience none audience h = cc h
  check_audience-IsAudience (some (text_claim a)) audience h =
      elim (Bool-cases (text_eq a audience)) [
        | inl same ↦
            subst (λ x. IsAudience audience (some (text_claim x)))
              (sym ((text_eq_iff a audience).0 same)) exactly
        | inr other ↦ cc (rw other at h)
      ]
  check_audience-IsAudience (some (array_claim l)) audience h =
      elim (Bool-cases (has_audience l audience)) [
        | inl there ↦
            let (before, after, e) = has_audience-split l audience there in
            subst (λ x. IsAudience audience (some (array_claim x))) (sym e) (among before after)
        | inr other ↦ cc (rw other at h)
      ]
  check_audience-IsAudience (some other_claim) audience h = cc h

  text_of_claim-eq :
      (c : Option Claim) (t : Text) → text_of_claim c ≡ some t → c ≡ some (text_claim t)
  unfolding text_of_claim
  text_of_claim-eq none t h = cc h
  text_of_claim-eq (some (text_claim a)) t h = ap (λ x. some (text_claim x)) (some_inj h)
  text_of_claim-eq (some (array_claim l)) t h = cc h
  text_of_claim-eq (some other_claim) t h = cc h

  require-some : (o : Option Text) (t : Text) → require o ≡ ok t → o ≡ some t
  unfolding require
  require-some none t h = cc h
  require-some (some a) t h = ap some (ok_inj h)

  check_issuer-some :
      (o : Option Text) (issuer : Text) → check_issuer o issuer ≡ ok tt → o ≡ some issuer
  unfolding check_issuer
  check_issuer-some none issuer h = cc h
  check_issuer-some (some a) issuer h = elim (Bool-cases (text_eq a issuer)) [
    | inl same ↦ ap some ((text_eq_iff a issuer).0 same)
    | inr other ↦ cc (rw other at h)
  ]

  claims_of-eq-ok :
      (token : Token) (claims : Claims)
      → claims_of token ≡ ok claims
      → (token.valid ≡ true) × (token.claims ≡ some claims)
  unfolding claims_of
  claims_of-eq-ok token claims h = elim (Bool-cases token.valid) [
    | inr wrong ↦ cc (rw wrong at h)
    | inl right ↦ (right, go token.claims (rw right at h))
  ]
    where
      go :
          (o : Option Claims)
          → (elim o [ none ↦ err (wrapped "%w: …" (sentinel invalid_token)) | some c ↦ ok c ])
            ≡ ok claims
          → o ≡ some claims
      go none e = cc e
      go (some c) e = ap some (ok_inj e)

  -- Claims that were verified: they are those of a valid token that the library parsed, which names
  -- the issuer and the audience.
  pub record IsTokenVerified (token_string jwks_url audience issuer provider : Text) (w : W)
      (claims : Claims) : Type 0 where
    pub token : Token
    pub parsed : (parse token_string (token_key s parse jwks_url provider) w).0 ≡ ok token
    pub valid : token.valid ≡ true
    pub carried : token.claims ≡ some claims
    pub issued : claims (codes "iss") ≡ some (text_claim issuer)
    pub addressed : IsAudience audience (claims (codes "aud"))

  verify_jwt-IsTokenVerified :
      (token_string jwks_url audience issuer provider : Text) (w v : W) (claims : Claims)
      → verify_jwt s parse token_string jwks_url audience issuer provider w ≡ (ok claims, v)
      → IsTokenVerified token_string jwks_url audience issuer provider w claims
  unfolding verify_jwt validate_issuer validate_audience
  verify_jwt-IsTokenVerified token_string jwks_url audience issuer provider w v claims h =
      let (token, u1, read, h) = bind_returned _ _ w v claims h in
      let (claims', u2, carried, h) = bind_returned _ _ u1 v claims h in
      let (_, u3, issued, h) = bind_returned _ _ u2 v claims h in
      let (_, u4, addressed, h) = bind_returned _ _ u3 v claims h in
      let same = (pure_returned claims' claims u4 v h).0 in
      let (valid, there) =
        claims_of-eq-ok token claims' (lift_returned _ u1 u2 claims' carried).0 in
      let raw = on_error_returned _ _ token w u1 read in
      subst (IsTokenVerified token_string jwks_url audience issuer provider w) same (record {
        token = token;
        parsed = ap (λ (z : Result Token × W). z.0) raw;
        valid = valid;
        carried = there;
        issued =
            text_of_claim-eq _ issuer
              (check_issuer-some _ issuer (lift_returned _ u2 u3 tt issued).0);
        addressed = check_audience-IsAudience _ audience (lift_returned _ u3 u4 tt addressed).0;
      })

  -- The user is what the claims say, each a string.
  pub record IsClaimed (claims : Claims) (u : GitHubUserInfo) : Type 0 where
    pub sub : claims (codes "sub") ≡ some (text_claim u.sub)
    pub repository : claims (codes "repository") ≡ some (text_claim u.repository)
    pub ref : claims (codes "ref") ≡ some (text_claim u.ref)
    pub actor : claims (codes "actor") ≡ some (text_claim u.actor)

  git_hub_claims-IsClaimed :
      (claims : Claims) (u : GitHubUserInfo) → git_hub_claims claims ≡ ok u → IsClaimed claims u
  unfolding git_hub_claims
  git_hub_claims-IsClaimed claims u h =
      let claim = λ (name : Text). require (text_of_claim (claims name)) in
      let (a, sub, h) = then_ok-eq-ok (claim (codes "sub")) _ h in
      let (b, repository, h) = then_ok-eq-ok (claim (codes "repository")) _ h in
      let (c, ref, h) = then_ok-eq-ok (claim (codes "ref")) _ h in
      let (d, actor, is) = then_ok-eq-ok (claim (codes "actor")) _ h in
      subst (IsClaimed claims) (ok_inj is) (record {
        sub = text_of_claim-eq _ a (require-some _ a sub);
        repository = text_of_claim-eq _ b (require-some _ b repository);
        ref = text_of_claim-eq _ c (require-some _ c ref);
        actor = text_of_claim-eq _ d (require-some _ d actor);
      })

  -- A token was accepted only if the library parsed it as valid, it was issued by GitHub Actions for
  -- the audience of the provider, and the user has the subject, repository, ref and actor of its
  -- claims.
  pub verify_id_token-IsTokenVerified :
      (jwks_url audience token_string : Text) (w v : W) (u : GitHubUserInfo)
      → verify_id_token s parse jwks_url audience token_string w ≡ (ok u, v)
      → (claims : Claims) × IsTokenVerified token_string jwks_url audience git_hub_issuer
          (codes "github")
          w
          claims
        × IsClaimed claims u
  unfolding verify_id_token
  verify_id_token-IsTokenVerified jwks_url audience token_string w v u h =
      let (claims, x, verified, h) = bind_returned _ _ w v u h in
      let raw = on_error_returned _ _ claims w x verified in
      (
        claims,
        verify_jwt-IsTokenVerified token_string jwks_url audience git_hub_issuer (codes "github") w
            x claims raw,
        git_hub_claims-IsClaimed claims u (lift_returned _ x v u h).0,
      )

  -- The function that the library asks for the key hands one out only for a token that says it is
  -- signed with RSA and names a key, and that key is found in the set of the provider.
  pub token_key-IsKeyFound :
      (jwks_url provider : Text) (header : TokenHeader) (w v : W) (key : PublicKey)
      → token_key s parse jwks_url provider header w ≡ (ok key, v)
      → (header.signed_with_rsa ≡ true)
        × ((key_id : Text) × (header.kid ≡ some (text_claim key_id))
            × ((jwk_set : JwkSet) × IsSource s jwks_url provider w jwk_set
                × IsKeyFound s jwk_set.keys key_id key))
  unfolding token_key key_for
  token_key-IsKeyFound jwks_url provider header w v key h =
      elim (Bool-cases header.signed_with_rsa) [
        | inr wrong ↦ absurd (raise_returned _ w v key (rw wrong at h))
        | inl right ↦ (right, go (text_of_claim header.kid) refl (rw right at h))
      ]
    where
      go :
          (o : Option Text)
          → text_of_claim header.kid ≡ o
          → key_for s parse jwks_url provider o w ≡ (ok key, v)
          → (key_id : Text) × (header.kid ≡ some (text_claim key_id))
            × ((jwk_set : JwkSet) × IsSource s jwks_url provider w jwk_set
                × IsKeyFound s jwk_set.keys key_id key)
      go none e h = absurd (raise_returned _ w v key h)
      go (some key_id) e h = (
        key_id,
        text_of_claim-eq header.kid key_id e,
        get_public_key-IsKeyFound s jwks_url key_id provider w v key
            (on_error_returned _ _ key w v h),
      )
