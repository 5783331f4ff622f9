-- ===== src/Jwk.antt =====
-- aitp_verifier/jwk.py: the RFC 7638 thumbprint of an AID's key.
pub mod Issuer
use aitp_verifier_py.Prelude.{◌++◌}
use aitp_verifier_py.Text.{Text, Bytes, txt}
use aitp_verifier_py.Platform.{Platform}
use aitp_verifier_py.B64.{b64url_encode}
use aitp_verifier_py.Crypto.{ed25519, p256}
use aitp_verifier_py.Aid.{Aid}

module _ ⦃π : Platform⦄ where
  -- `_canonical_jwk`. The text is ASCII, so its code points are its bytes.
  unfoldable pub canonical_jwk : Aid → Bytes
  canonical_jwk a = elim a.alg [
    | ed25519 ↦
        txt "{\"crv\":\"Ed25519\",\"kty\":\"OKP\",\"x\":\""
        ++ (b64url_encode a.raw_key ++ txt "\"}")
    | p256 ↦
        txt "{\"crv\":\"P-256\",\"kty\":\"EC\",\"x\":\""
        ++ (b64url_encode (π.p256_x a.public_key.key)
            ++ (txt "\",\"y\":\"" ++ (b64url_encode (π.p256_y a.public_key.key) ++ txt "\"}")))
  ]

  unfoldable pub thumbprint : Aid → Text
  thumbprint a = b64url_encode (π.sha256 (canonical_jwk a))
