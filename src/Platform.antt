-- ===== src/Platform.antt =====
-- What the verifier takes from outside its repository: the `cryptography` package and `hashlib`, and
-- CPython's conversions between doubles and their decimal text. The whole development is over an
-- unknown such platform; what a theorem relies on stands among its hypotheses.
use aitp_verifier_py.Prelude.{ℕ, Bool, Option}
use aitp_verifier_py.Prelude.Int.{ℤ}
use aitp_verifier_py.Text.{Text, Bytes}
use aitp_verifier_py.Json.{Float}

pub record Platform : Type 1 where
  -- `hashlib.sha256(data).digest()`
  pub sha256 : Bytes → Bytes
  -- the package's key objects
  pub Key : Type 0
  -- `Ed25519PublicKey.from_public_bytes` and `EllipticCurvePublicKey.from_encoded_point` on P-256;
  -- `none` is their `ValueError`
  pub ed25519_key : Bytes → Option Key
  pub p256_key : Bytes → Option Key
  -- `public_numbers()`, the affine coordinates of a P-256 key as 32 bytes each
  pub p256_x : Key → Bytes
  pub p256_y : Key → Bytes
  -- `key.verify(sig, message)`; `false` is `InvalidSignature`
  pub ed25519_verify : Key → Bytes → Bytes → Bool
  -- `encode_dss_signature(r, s)`
  pub encode_dss_signature : ℕ → ℕ → Bytes
  -- `key.verify(der, data, ec.ECDSA(...))`, over a digest and over a message
  pub ecdsa_verify_prehashed : Key → Bytes → Bytes → Bool
  pub ecdsa_verify : Key → Bytes → Bytes → Bool
  -- `float(n)`, where `none` is its `OverflowError`; `repr(x)` of a positive double; and the double
  -- nearest to a JSON number's text
  pub float_of_int : ℤ → Option Float
  pub float_repr : Float → Text
  pub float_of_text : Text → Float
  -- `int(s)` on a string; `none` is its `ValueError`
  pub int_of_text : Text → Option ℤ
  -- `RSAPublicNumbers(e, n).public_key()`, and its `verify` with PKCS#1 v1.5 and SHA-256
  pub rsa_key : ℕ → ℕ → Option Key
  pub rsa_verify : Key → Bytes → Bytes → Bool
  -- `EllipticCurvePublicNumbers(x, y, SECP256R1()).public_key()`
  pub p256_point : ℕ → ℕ → Option Key
  -- `ipaddress.IPv6Address(s)`; `false` is its `ValueError`
  pub ipv6_address : Text → Bool
