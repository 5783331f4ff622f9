-- ===== src/Jwk/Issuer.antt =====
-- The keys of an OIDC issuer: the parsing of aitp_verifier/jwk.py, and what aitp_verifier/crypto.py has
-- only for them (RSA, and high-S in a token that an identity provider signed).
pub mod Bounds
pub mod Caps
pub mod Boundary
use aitp_verifier_py.Prelude.{
  ℕ, ◌+◌, ◌^◌, Bool, true, false, not, ◌&&◌, ◌||◌, Option, none, some, List, [], ◌∷◌, ◌++◌, ltb,
  leb, ◌==◌, length, if◌then◌else◌,
}
use aitp_verifier_py.Text.{Text, Bytes, txt, from_bytes}
use aitp_verifier_py.Json.{
  Value, null, str, list, obj, Items, nil, item, Members, get, get_or_null, items, is_text,
}
use aitp_verifier_py.Outcome.{Result, Check, ok, raised, value_error, ◌>>=◌, ◌>>◌}
use aitp_verifier_py.Platform.{Platform}
use aitp_verifier_py.B64.{b64url_decode}
use aitp_verifier_py.Crypto.{
  Alg, ed25519, p256, PublicKey, of_key, from_raw, p256_raw_to_der, verify_der,
}
use aitp_verifier_py.Aid.{jose_alg}

-- `if test: raise ValueError`
abbrev pub refuse_if : Bool → Check
refuse_if true = raised value_error
refuse_if false = ok tt

abbrev pub max_b64_member_chars : ℕ
max_b64_member_chars = 8192

abbrev pub max_key_depth : ℕ
max_key_depth = 16

abbrev pub max_candidates : ℕ
max_candidates = 64

abbrev pub max_key_nodes : ℕ
max_key_nodes = 4096

-- `n.bit_length() <= bits`
abbrev pub fits_bits : ℕ → ℕ → Bool
fits_bits bits n = ltb n (2 ^ bits)

-- `len(b) > 1 and b[0] == 0`
unfoldable pub is_padded : Bytes → Bool
is_padded (b ∷ c ∷ bs) = b == 0
is_padded _ = false

-- `kid`: absent or null, or a string.
unfoldable pub kid_of : Value → Result (Option Text)
kid_of null = ok none
kid_of (str s) = ok (some s)
kid_of _ = raised value_error

-- `_require_str`
unfoldable pub require_str : Value → Result Text
require_str (str s) = ok s
require_str _ = raised value_error

unfoldable pub decode_jwk_member : Members → Text → Result Bytes
decode_jwk_member value name = do
  text ← require_str (get_or_null name value)
  refuse_if (ltb max_b64_member_chars (length text))
  b64url_decode text

module _ ⦃π : Platform⦄ where
  -- A key of one of the two AID algorithms, or an RSA key (`ALG_RSA`).
  pub data JoseKey : Type 0 where
    aid_key : PublicKey → JoseKey
    rsa_key : π.Key → JoseKey

  pub record IssuerKey : Type 0 where
    pub kid : Option Text
    pub jose_alg : Text
    pub public_key : JoseKey

  -- `public_key()` of checked numbers
  unfoldable pub rsa_of : Option π.Key → Result JoseKey
  rsa_of none = raised value_error
  rsa_of (some k) = ok (rsa_key k)

  -- `PublicKey.from_rsa_numbers`
  unfoldable pub from_rsa_numbers : Bytes → Bytes → Result JoseKey
  from_rsa_numbers n e = do
    refuse_if (fits_bits 2047 (from_bytes 0 n) || not (fits_bits 8192 (from_bytes 0 n)))
    refuse_if (is_padded n)
    refuse_if (not (fits_bits 33 (from_bytes 0 e)))
    refuse_if (is_padded e)
    rsa_of (π.rsa_key (from_bytes 0 e) (from_bytes 0 n))

  -- `PublicKey.verify_jose` with `idp_token=True`
  unfoldable pub verify_idp_token : JoseKey → Bytes → Bytes → Bool
  unfolding verify_der
  verify_idp_token (rsa_key k) signing_input sig = π.rsa_verify k sig signing_input
  verify_idp_token (aid_key k) signing_input sig = elim k.alg [
    | ed25519 ↦ π.ed25519_verify k.key sig signing_input
    | p256 ↦ verify_der (λ der. π.ecdsa_verify k.key der signing_input) (p256_raw_to_der sig true)
  ]

  unfoldable pub okp_key : Members → Option Text → Result IssuerKey
  okp_key value kid = do
    refuse_if (not (is_text (txt "Ed25519") (get_or_null (txt "crv") value)))
    x ← decode_jwk_member value (txt "x")
    refuse_if (not (length x == 32))
    key ← from_raw ed25519 x
    ok (record { kid = kid; jose_alg = txt "EdDSA"; public_key = aid_key key })

  unfoldable pub ec_key : Members → Option Text → Result IssuerKey
  ec_key value kid = do
    refuse_if (not (is_text (txt "P-256") (get_or_null (txt "crv") value)))
    x ← decode_jwk_member value (txt "x")
    y ← decode_jwk_member value (txt "y")
    refuse_if (not (length x == 32) || not (length y == 32))
    key ← of_key p256 (π.p256_point (from_bytes 0 x) (from_bytes 0 y))
    ok (record { kid = kid; jose_alg = txt "ES256"; public_key = aid_key key })

  unfoldable pub rsa_issuer_key : Members → Option Text → Result IssuerKey
  rsa_issuer_key value kid = do
    n ← decode_jwk_member value (txt "n")
    e ← decode_jwk_member value (txt "e")
    key ← from_rsa_numbers n e
    ok (record { kid = kid; jose_alg = txt "RS256"; public_key = key })

  -- The branches of `issuer_key_from_jwk` on `kty`.
  unfoldable pub key_of_type : Value → Members → Option Text → Result IssuerKey
  key_of_type kty value kid =
      if is_text (txt "OKP") kty
      then okp_key value kid
      else if is_text (txt "EC") kty
      then ec_key value kid
      else if is_text (txt "RSA") kty
      then rsa_issuer_key value kid
      else raised value_error

  unfoldable pub issuer_key_from_jwk : Value → Result IssuerKey
  issuer_key_from_jwk (obj value) = do
    kid ← kid_of (get_or_null (txt "kid") value)
    key_of_type (get_or_null (txt "kty") value) value kid
  issuer_key_from_jwk _ = raised value_error

  -- A raw key of the given algorithm, without a `kid`.
  unfoldable pub config_key : Alg → Text → Result IssuerKey
  config_key alg b64url = do
    raw ← b64url_decode b64url
    key ← from_raw alg raw
    ok (record { kid = none; jose_alg = jose_alg alg; public_key = aid_key key })

  unfoldable pub issuer_key_from_config : Text → Result IssuerKey
  issuer_key_from_config b64url =
      if length b64url == 43
      then config_key ed25519 b64url
      else if length b64url == 44
      then config_key p256 b64url
      else raised value_error

  -- What the walk keeps: the candidates in order, and the number of nodes visited.
  pub record Walk : Type 0 where
    pub out : List IssuerKey
    pub visits : ℕ

  -- `_visit`
  unfoldable pub visit_node : Walk → Result Walk
  visit_node w = do
    refuse_if (ltb max_key_nodes (w.visits + 1))
    ok (record { out = w.out; visits = w.visits + 1 })

  -- `_reserve(out)`, then `out.append(...)` of what is parsed next
  unfoldable pub reserve : Result IssuerKey → Walk → Result Walk
  reserve parse w = do
    refuse_if (leb max_candidates (length w.out))
    key ← parse
    ok (record { out = w.out ++ (key ∷ []); visits = w.visits })

  unfoldable pub walk_keys : List Value → Walk → Result Walk
  walk_keys [] w = ok w
  walk_keys (k ∷ ks) w = reserve (issuer_key_from_jwk k) w >>= λ next. walk_keys ks next

  unfoldable pub walk_jwks : Value → Walk → Result Walk
  walk_jwks (list keys) w = walk_keys (items keys) w
  walk_jwks _ w = raised value_error

  -- An object is a JWKS where it has `keys`, and a JWK otherwise.
  unfoldable pub walk_object : Members → Walk → Result Walk
  walk_object value w = elim (get (txt "keys") value) [
    | some keys ↦ walk_jwks keys w
    | none ↦ reserve (issuer_key_from_jwk (obj value)) w
  ]

  -- The guards at the entry of `_issuer_keys_from`.
  unfoldable pub enter : ℕ → Walk → Result Walk
  enter depth w = do entered ← visit_node w; refuse_if (ltb max_key_depth depth); ok entered

  -- `_issuer_keys_from`
  unfoldable mutual
    pub collect : Value → ℕ → Walk → Result Walk
    collect (list values) depth w = enter depth w >>= λ v. collect_items values (depth + 1) v
    collect null depth w = enter depth w
    collect (str s) depth w = enter depth w >>= λ v. reserve (issuer_key_from_config s) v
    collect (obj value) depth w = enter depth w >>= λ v. walk_object value v
    collect _ depth w = enter depth w >>= λ v. raised value_error

    pub collect_items : Items → ℕ → Walk → Result Walk
    collect_items nil depth w = ok w
    collect_items (item v vs) depth w = collect v depth w >>= λ next. collect_items vs depth next

  unfoldable pub issuer_keys_from : Value → Result (List IssuerKey)
  issuer_keys_from value = do
    walked ← collect value 0 (record { out = []; visits = 0 })
    ok walked.out
