-- ===== src/Infra/Oidc/Jwks/Laws.antt =====
-- Which keys are parsed, and where a key that is handed out comes from.
use mathlib.Core.Path.{ap₂, subst}
use cargohold.Exec.{map_err, ok}
use cargohold.Exec.Keeps.{map_err-eq-ok, ok_inj, then_ok-eq-ok}
use cargohold.Failure.{wrapped}
use cargohold.Infra.Oidc.Jwks.{
  Jwk, JwksServices, PublicKey, exponent_fits, find_key, parse_rsa_public_key, set_bytes,
}
use cargohold.Prelude.{
  Bool, Bool-cases, List, [], any, ap, arith, false, inl, inr, refl, sym, true, ℕ, ◌&&◌, ◌++◌, ◌<◌,
  ◌↔◌, ◌∷◌, ◌≡◌, ◌≤◌,
}
use cargohold.Prelude.Text.{Text, codes, text_eq}

module _ {W : Type 0} (s : JwksServices W) where
  open s use {decode_string, max_int}

  -- The key that a JWK stands for: both numbers are decoded, and the exponent is in the range of
  -- int64 and of int.
  pub record IsKeyOf (jwk : Jwk) (key : PublicKey) : Type 0 where
    pub n_bytes : List ℕ
    pub e_bytes : List ℕ
    pub n_decoded : decode_string jwk.n ≡ ok n_bytes
    pub e_decoded : decode_string jwk.e ≡ ok e_bytes
    pub modulus : key.modulus ≡ set_bytes 0 n_bytes
    pub exponent : key.exponent ≡ set_bytes 0 e_bytes
    pub in_int64 : key.exponent < 9223372036854775808
    pub in_int : key.exponent ≤ max_int

  fits_iff : (e : ℕ) → (exponent_fits s e ≡ true) ↔ ((e < 9223372036854775808) × (e ≤ max_int))
  unfolding exponent_fits
  fits_iff e = ground arith

  parsed-IsKeyOf :
      (jwk : Jwk) (key : PublicKey) → parse_rsa_public_key s jwk ≡ ok key → IsKeyOf jwk key
  unfolding parse_rsa_public_key
  parsed-IsKeyOf jwk key h =
      let (n_bytes, n_decoded, h) =
        then_ok-eq-ok (map_err (wrapped "modulus のデコードに失敗しました") (decode_string jwk.n)) _ h in
      let (e_bytes, e_decoded, h) =
        then_ok-eq-ok (map_err (wrapped "exponent のデコードに失敗しました") (decode_string jwk.e)) _ h in
      elim (Bool-cases (exponent_fits s (set_bytes 0 e_bytes))) [
        | inr wrong ↦ cc (rw wrong at h)
        | inl fits ↦
            let is = ok_inj (rw fits at h) in
            let (in_int64, in_int) = (fits_iff (set_bytes 0 e_bytes)).0 fits in
            record {
              n_bytes = n_bytes;
              e_bytes = e_bytes;
              n_decoded = map_err-eq-ok _ (decode_string jwk.n) n_decoded;
              e_decoded = map_err-eq-ok _ (decode_string jwk.e) e_decoded;
              modulus = ap (λ (k : PublicKey). k.modulus) (sym is);
              exponent = ap (λ (k : PublicKey). k.exponent) (sym is);
              in_int64 = subst (λ (k : PublicKey). k.exponent < 9223372036854775808) is in_int64;
              in_int = subst (λ (k : PublicKey). k.exponent ≤ max_int) is in_int;
            }
      ]

  built_of_IsKeyOf :
      (jwk : Jwk) (key : PublicKey) → IsKeyOf jwk key → parse_rsa_public_key s jwk ≡ ok key
  unfolding parse_rsa_public_key
  built_of_IsKeyOf jwk key k =
      let fits = (fits_iff (set_bytes 0 k.e_bytes)).1 (
        subst (λ e. (e < 9223372036854775808) × (e ≤ max_int)) k.exponent (k.in_int64, k.in_int)) in
      rw (k.n_decoded, k.e_decoded, fits)
        (ap₂ (λ n e. ok (record { modulus = n; exponent = e })) (sym k.modulus) (sym k.exponent))

  -- A JWK is accepted exactly if both numbers are decoded and the exponent, read as a number in
  -- big-endian order, is in the range of int64 and of the platform's int; the key has these numbers,
  -- unchanged by the conversion.
  pub parse_rsa_public_key-eq-ok_iff :
      (jwk : Jwk) (key : PublicKey) → (parse_rsa_public_key s jwk ≡ ok key) ↔ IsKeyOf jwk key
  parse_rsa_public_key-eq-ok_iff jwk key = (parsed-IsKeyOf jwk key, built_of_IsKeyOf jwk key)

  abbrev pub matches : Text → Jwk → Bool
  matches key_id jwk = text_eq jwk.kid key_id && text_eq jwk.kty (codes "RSA")

  -- The key is that of the first RSA entry under the number.
  pub record IsKeyFound (keys : List Jwk) (key_id : Text) (key : PublicKey) : Type 0 where
    pub before : List Jwk
    pub jwk : Jwk
    pub after : List Jwk
    pub position : keys ≡ before ++ (jwk ∷ after)
    pub skipped : any (matches key_id) before ≡ false
    pub named : matches key_id jwk ≡ true
    pub is_key : IsKeyOf jwk key

  pub find_key-IsKeyFound :
      (keys : List Jwk) (key_id : Text) (key : PublicKey)
      → find_key s keys key_id ≡ ok key
      → IsKeyFound keys key_id key
  unfolding find_key any
  find_key-IsKeyFound [] key_id key h = cc h
  find_key-IsKeyFound (jwk ∷ keys) key_id key h = elim (Bool-cases (matches key_id jwk)) [
    | inl here ↦ record {
      before = [];
      jwk = jwk;
      after = keys;
      position = refl;
      skipped = refl;
      named = here;
      is_key = parsed-IsKeyOf jwk key (rw here at h);
    }
    | inr wrong ↦
        let rest = find_key-IsKeyFound keys key_id key (rw wrong at h) in
        record {
          before = jwk ∷ rest.before;
          jwk = rest.jwk;
          after = rest.after;
          position = ap (λ (l : List Jwk). jwk ∷ l) rest.position;
          skipped = rw wrong rest.skipped;
          named = rest.named;
          is_key = rest.is_key;
        }
  ]
