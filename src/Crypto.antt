-- ===== src/Crypto.antt =====
-- aitp_verifier/crypto.py: the two AID algorithms and the two signing profiles. The primitives are the
-- platform's; what this code adds is the choice of primitive, the length checks and the rules on R and S.
pub mod LowS
use aitp_verifier_py.Prelude.{
  ℕ, ◌/◌, ◌-◌, Bool, true, false, not, ◌&&◌, ◌||◌, Option, none, some, ltb, ◌==◌, if◌then◌else◌,
  length, take, drop,
}
use aitp_verifier_py.Text.{Bytes, from_bytes}
use aitp_verifier_py.Outcome.{Result, ok, raised, value_error}
use aitp_verifier_py.Platform.{Platform}

pub data Alg : Type 0 where
  ed25519 p256 : Alg

-- P-256 group order n (SEC 2 §2.4.2).
abbrev pub p256_n : ℕ
p256_n = 0xFFFFFFFF00000000FFFFFFFFFFFFFFFFBCE6FAADA7179E84F3B9CAC2FC632551

module _ ⦃π : Platform⦄ where
  pub record PublicKey : Type 0 where
    pub alg : Alg
    pub key : π.Key

  unfoldable pub of_key : Alg → Option π.Key → Result PublicKey
  of_key a none = raised value_error
  of_key a (some k) = ok (record { alg = a; key = k })

  -- `PublicKey.from_raw`
  unfoldable pub from_raw : Alg → Bytes → Result PublicKey
  unfolding of_key
  from_raw ed25519 raw =
      if length raw == 32 then of_key ed25519 (π.ed25519_key raw) else raised value_error
  from_raw p256 raw = if length raw == 33 then of_key p256 (π.p256_key raw) else raised value_error

  -- `_p256_raw_to_der`
  unfoldable pub p256_raw_to_der : Bytes → Bool → Result Bytes
  p256_raw_to_der sig allow_high_s =
      if not (length sig == 64)
      then raised value_error
      else (let r = from_bytes 0 (take 32 sig) in
          let s = from_bytes 0 (drop 32 sig) in
          if not (ltb 0 r && ltb r p256_n && ltb 0 s && ltb s p256_n)
          then raised value_error
          else if ltb (p256_n / 2) s && not allow_high_s
          then raised value_error
          else ok (π.encode_dss_signature r s))

  -- the `except (InvalidSignature, ValueError): return False` of both operations
  unfoldable pub verify_der : (Bytes → Bool) → Result Bytes → Bool
  verify_der verify (ok der) = verify der
  verify_der verify _ = false

  unfoldable pub verify_digest : PublicKey → Bytes → Bytes → Bool
  unfolding verify_der
  verify_digest k digest sig = elim k.alg [
    | ed25519 ↦ π.ed25519_verify k.key sig digest
    | p256 ↦
        verify_der (λ der. π.ecdsa_verify_prehashed k.key der digest) (p256_raw_to_der sig false)
  ]

  -- without `idp_token`, which only the OIDC path sets
  unfoldable pub verify_jose : PublicKey → Bytes → Bytes → Bool
  unfolding verify_der
  verify_jose k signing_input sig = elim k.alg [
    | ed25519 ↦ π.ed25519_verify k.key sig signing_input
    | p256 ↦ verify_der (λ der. π.ecdsa_verify k.key der signing_input) (p256_raw_to_der sig false)
  ]
