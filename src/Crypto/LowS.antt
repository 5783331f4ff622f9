-- ===== src/Crypto/LowS.antt =====
-- P-256 signatures have one wire form.
use aitp_verifier_py.Prelude.{
  ℕ, ◌-◌, ◌/◌, ◌<◌, ◌≤◌, ◌≡◌, ◌⊎◌, refl, Bool, true, false, arith, length, take, drop, inl, inr,
}
use aitp_verifier_py.Text.{Bytes, from_bytes}
use aitp_verifier_py.Outcome.{Result, ok, err, raised}
use aitp_verifier_py.Platform.{Platform}
use aitp_verifier_py.Crypto.{
  p256_n, p256, PublicKey, verify_der, p256_raw_to_der, verify_digest, verify_jose,
}

abbrev pub r_of : Bytes → ℕ
r_of sig = from_bytes 0 (take 32 sig)

abbrev pub s_of : Bytes → ℕ
s_of sig = from_bytes 0 (drop 32 sig)

-- What AITP's own signatures have to be: 64 bytes, both numbers in range, and S in the lower half.
pub record IsLowS (sig : Bytes) : Type 0 where
  pub size : length sig ≡ 64
  pub r_pos : 0 < r_of sig
  pub r_lt : r_of sig < p256_n
  pub s_pos : 0 < s_of sig
  pub s_low : s_of sig ≤ p256_n / 2

-- The other S of a low-S signature is in the upper half.
high_twin : (sig twin : Bytes) → IsLowS sig → s_of twin ≡ p256_n - s_of sig → ¬ (IsLowS twin)
high_twin sig twin low e high = let a = low.s_low in let b = high.s_low in absurd (omega arith)

not_true : (b : Bool) → ¬ (b ≡ true) → b ≡ false
not_true true h = absurd (h refl)
not_true false h = refl

module _ ⦃π : Platform⦄ where
  pub p256_raw_to_der-IsLowS : (sig der : Bytes) → p256_raw_to_der sig false ≡ ok der → IsLowS sig
  unfolding p256_raw_to_der
  p256_raw_to_der-IsLowS sig der h = record {
    size = ground arith;
    r_pos = ground arith;
    r_lt = ground arith;
    s_pos = ground arith;
    s_low = ground arith;
  }

  pub p256_raw_to_der-eq_of_IsLowS :
      (sig : Bytes)
      → IsLowS sig
      → p256_raw_to_der sig false ≡ ok (π.encode_dss_signature (r_of sig) (s_of sig))
  unfolding p256_raw_to_der
  p256_raw_to_der-eq_of_IsLowS sig h = ground arith

  accepted_der :
      (verify : Bytes → Bool) (sig : Bytes) (r : Result Bytes)
      → p256_raw_to_der sig false ≡ r
      → verify_der verify r ≡ true
      → IsLowS sig
  unfolding verify_der
  accepted_der verify sig (ok der) e h = p256_raw_to_der-IsLowS sig der e
  accepted_der verify sig (err c) e h = cc
  accepted_der verify sig (raised x) e h = cc

  module _ (k : PublicKey) (message sig : Bytes) (is_p256 : k.alg ≡ p256) where
    pub verify_digest-IsLowS : verify_digest k message sig ≡ true → IsLowS sig
    verify_digest-IsLowS h =
        accepted_der (λ der. π.ecdsa_verify_prehashed k.key der message) sig
          (p256_raw_to_der sig false) refl (unfold verify_digest in ground arith)

    pub verify_jose-IsLowS : verify_jose k message sig ≡ true → IsLowS sig
    verify_jose-IsLowS h =
        accepted_der (λ der. π.ecdsa_verify k.key der message) sig (p256_raw_to_der sig false) refl
          (unfold verify_jose in ground arith)

  -- Whatever the P-256 primitives answer: if a signature verifies in either profile, then the same
  -- signature with S replaced by n - S verifies in neither, over any data.
  pub verify-no_twin :
      (k : PublicKey) (data1 data2 sig twin : Bytes)
      → k.alg ≡ p256
      → (verify_digest k data1 sig ≡ true) ⊎ (verify_jose k data1 sig ≡ true)
      → s_of twin ≡ p256_n - s_of sig
      → (verify_digest k data2 twin ≡ false) × (verify_jose k data2 twin ≡ false)
  verify-no_twin k data1 data2 sig twin p v e =
      let low : IsLowS sig = elim v [
        | inl h ↦ verify_digest-IsLowS k data1 sig p h
        | inr h ↦ verify_jose-IsLowS k data1 sig p h
      ] in
      (
        not_true _ (λ h. high_twin sig twin low e (verify_digest-IsLowS k data2 twin p h)),
        not_true _ (λ h. high_twin sig twin low e (verify_jose-IsLowS k data2 twin p h)),
      )
