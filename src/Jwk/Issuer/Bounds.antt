-- ===== src/Jwk/Issuer/Bounds.antt =====
-- The caps of `issuer_keys_from` of aitp_verifier/jwk.py, and where a candidate's algorithm comes from.
use aitp_verifier_py.Prelude.{
  ℕ, ◌^◌, ◌≤◌, ◌<◌, ◌≡◌, refl, sym, ap, subst, Bool, true, false, not, ◌||◌, Option, none, some,
  List, [], ◌∷◌, ◌++◌, ltb, ◌==◌, length, All, arith,
}
use aitp_verifier_py.Text.{Text, Bytes, txt, from_bytes}
use aitp_verifier_py.Json.{Value, obj, Members, get_or_null}
use aitp_verifier_py.Outcome.{
  Result, ok, value_error, ◌>>◌, >>=-eq-ok, ok-injective, if-eq-ok, raised-eq-ok,
}
use aitp_verifier_py.Platform.{Platform}
use aitp_verifier_py.B64.{b64url_decode}
use aitp_verifier_py.Crypto.{Alg, ed25519, p256, PublicKey, of_key, from_raw}
use aitp_verifier_py.Aid.{jose_alg}
use aitp_verifier_py.Jwk.Issuer.{
  refuse_if, fits_bits, is_padded, kid_of, decode_jwk_member, JoseKey, aid_key, rsa_key, IssuerKey,
  rsa_of, from_rsa_numbers, okp_key, ec_key, rsa_issuer_key, key_of_type, issuer_key_from_jwk,
  config_key, issuer_key_from_config,
}

-- A guard that did not raise.
pub refuse_if-ok : (t : Bool) → refuse_if t ≡ ok tt → t ≡ false
refuse_if-ok true h = cc
refuse_if-ok false h = refl

pub refuse_if-eq-ok {ℓ} :
    {B : Type ℓ} (t : Bool) (k : Result B) {b : B}
    → (refuse_if t >> k) ≡ ok b
    → (t ≡ false) × (k ≡ ok b)
refuse_if-eq-ok true k h = cc
refuse_if-eq-ok false k h = (refl, h)

pub All-append {ℓ κ} :
    {A : Type ℓ} (P : A → Type κ) (xs ys : List A) → All P xs → All P ys → All P (xs ++ ys)
All-append P [] ys hx hy = hy
All-append P (x ∷ xs) ys hx hy = (hx.0, All-append P xs ys hx.1 hy)

module _ ⦃π : Platform⦄ where
  -- The algorithm that a key's own kind implies.
  abbrev pub structural_alg : JoseKey → Text
  structural_alg (aid_key k) = jose_alg k.alg
  structural_alg (rsa_key k) = txt "RS256"

  abbrev pub IsStructural : IssuerKey → Type 0
  IsStructural k = k.jose_alg ≡ structural_alg k.public_key

  of_key-alg : (a : Alg) (o : Option π.Key) (k : PublicKey) → of_key a o ≡ ok k → k.alg ≡ a
  unfolding of_key
  of_key-alg a none k h = cc
  of_key-alg a (some x) k h = ap (λ q. q.alg) (sym (ok-injective h))

  from_raw-alg : (a : Alg) (raw : Bytes) (k : PublicKey) → from_raw a raw ≡ ok k → k.alg ≡ a
  unfolding from_raw
  from_raw-alg ed25519 raw k h =
      if-eq-ok (length raw == 32) _ _ (of_key-alg ed25519 (π.ed25519_key raw) k)
        (raised-eq-ok value_error) h
  from_raw-alg p256 raw k h =
      if-eq-ok (length raw == 33) _ _ (of_key-alg p256 (π.p256_key raw) k)
        (raised-eq-ok value_error) h

  rsa_of-alg : (o : Option π.Key) (k : JoseKey) → rsa_of o ≡ ok k → structural_alg k ≡ txt "RS256"
  unfolding rsa_of
  rsa_of-alg none k h = cc
  rsa_of-alg (some x) k h = ap structural_alg (sym (ok-injective h))

  -- An RSA key comes from a modulus of 2048 to 8192 bits and an exponent of at most 33, both written
  -- without leading zero bytes.
  pub record IsInRange (n e : Bytes) : Type 0 where
    pub long_modulus : 2 ^ 2047 ≤ from_bytes 0 n
    pub short_modulus : from_bytes 0 n < 2 ^ 8192
    pub short_exponent : from_bytes 0 e < 2 ^ 33
    pub modulus_minimal : is_padded n ≡ false
    pub exponent_minimal : is_padded e ≡ false

  modulus_in_range : (lo hi n : ℕ) → (ltb n lo || not (ltb n hi)) ≡ false → (lo ≤ n) × (n < hi)
  modulus_in_range lo hi n h = ground arith

  exponent_in_range : (hi n : ℕ) → not (ltb n hi) ≡ false → n < hi
  exponent_in_range hi n h = ground arith

  pub from_rsa_numbers-IsInRange :
      (n e : Bytes) (k : JoseKey)
      → from_rsa_numbers n e ≡ ok k
      → IsInRange n e × (structural_alg k ≡ txt "RS256")
  unfolding from_rsa_numbers
  from_rsa_numbers-IsInRange n e k h =
      let (p, h1) =
        refuse_if-eq-ok (fits_bits 2047 (from_bytes 0 n) || not (fits_bits 8192 (from_bytes 0 n))) _
          h in
      let (q, h2) = refuse_if-eq-ok (is_padded n) _ h1 in
      let (r, h3) = refuse_if-eq-ok (not (fits_bits 33 (from_bytes 0 e))) _ h2 in
      let (s, h4) = refuse_if-eq-ok (is_padded e) _ h3 in
      let (lo, hi) = modulus_in_range (2 ^ 2047) (2 ^ 8192) (from_bytes 0 n) p in
      (
        record {
          long_modulus = lo;
          short_modulus = hi;
          short_exponent = exponent_in_range (2 ^ 33) (from_bytes 0 e) r;
          modulus_minimal = q;
          exponent_minimal = s;
        },
        rsa_of-alg (π.rsa_key (from_bytes 0 e) (from_bytes 0 n)) k h4,
      )

  structural :
      (kid : Option Text) (alg : Text) (key : JoseKey) (k : IssuerKey)
      → alg ≡ structural_alg key
      → ok (record { kid = kid; jose_alg = alg; public_key = key }) ≡ ok k
      → IsStructural k
  structural kid alg key k e h = subst IsStructural (ok-injective h) e

  okp_key-IsStructural :
      (value : Members) (kid : Option Text) (k : IssuerKey)
      → okp_key value kid ≡ ok k
      → IsStructural k
  unfolding okp_key jose_alg
  okp_key-IsStructural value kid k h =
      let (p, h1) = refuse_if-eq-ok _ _ h in
      let (x, q, h2) = >>=-eq-ok (decode_jwk_member value (txt "x")) _ h1 in
      let (r, h3) = refuse_if-eq-ok _ _ h2 in
      let (key, s, h4) = >>=-eq-ok (from_raw ed25519 x) _ h3 in
      structural kid _ (aid_key key) k (ap jose_alg (sym (from_raw-alg ed25519 x key s))) h4

  ec_key-IsStructural :
      (value : Members) (kid : Option Text) (k : IssuerKey)
      → ec_key value kid ≡ ok k
      → IsStructural k
  unfolding ec_key jose_alg
  ec_key-IsStructural value kid k h =
      let (p, h1) = refuse_if-eq-ok _ _ h in
      let (x, q, h2) = >>=-eq-ok (decode_jwk_member value (txt "x")) _ h1 in
      let (y, q', h3) = >>=-eq-ok (decode_jwk_member value (txt "y")) _ h2 in
      let (r, h4) = refuse_if-eq-ok _ _ h3 in
      let (key, s, h5) =
        >>=-eq-ok (of_key p256 (π.p256_point (from_bytes 0 x) (from_bytes 0 y))) _ h4 in
      structural kid _ (aid_key key) k (ap jose_alg (sym (of_key-alg p256 _ key s))) h5

  rsa_issuer_key-IsStructural :
      (value : Members) (kid : Option Text) (k : IssuerKey)
      → rsa_issuer_key value kid ≡ ok k
      → IsStructural k
  unfolding rsa_issuer_key
  rsa_issuer_key-IsStructural value kid k h =
      let (n, p, h1) = >>=-eq-ok (decode_jwk_member value (txt "n")) _ h in
      let (e, q, h2) = >>=-eq-ok (decode_jwk_member value (txt "e")) _ h1 in
      let (key, r, h3) = >>=-eq-ok (from_rsa_numbers n e) _ h2 in
      structural kid _ key k (sym (from_rsa_numbers-IsInRange n e key r).1) h3

  pub issuer_key_from_jwk-IsStructural :
      (v : Value) (k : IssuerKey) → issuer_key_from_jwk v ≡ ok k → IsStructural k
  unfolding issuer_key_from_jwk key_of_type
  issuer_key_from_jwk-IsStructural (obj value) k h =
      let (kid, p, h1) = >>=-eq-ok (kid_of (get_or_null (txt "kid") value)) _ h in
      if-eq-ok _ _ _ (okp_key-IsStructural value kid k)
        (if-eq-ok _ _ _ (ec_key-IsStructural value kid k)
          (if-eq-ok _ _ _ (rsa_issuer_key-IsStructural value kid k) (raised-eq-ok value_error)))
        h1
  issuer_key_from_jwk-IsStructural v k h = cc

  config_key-IsStructural :
      (a : Alg) (s : Text) (k : IssuerKey) → config_key a s ≡ ok k → IsStructural k
  unfolding config_key
  config_key-IsStructural a s k h =
      let (raw, p, h1) = >>=-eq-ok (b64url_decode s) _ h in
      let (key, q, h2) = >>=-eq-ok (from_raw a raw) _ h1 in
      structural none _ (aid_key key) k (ap jose_alg (sym (from_raw-alg a raw key q))) h2

  pub issuer_key_from_config-IsStructural :
      (s : Text) (k : IssuerKey) → issuer_key_from_config s ≡ ok k → IsStructural k
  unfolding issuer_key_from_config
  issuer_key_from_config-IsStructural s k =
      if-eq-ok _ _ _ (config_key-IsStructural ed25519 s k)
        (if-eq-ok _ _ _ (config_key-IsStructural p256 s k) (raised-eq-ok value_error))
