-- ===== src/Examples/Toy.antt =====
-- A platform to evaluate the verifiers on: an Ed25519 key is its bytes and a signature is good when it
-- is the key twice, a P-256 key accepts its own bytes as DER, a digest is the first two bytes, and a
-- number's text is its last digit.
use aitp_verifier_py.Prelude.{◌+◌, ◌%◌, none, some, [], ◌∷◌, ◌++◌, take}
use aitp_verifier_py.Prelude.Int.{pos}
use aitp_verifier_py.Text.{Text, Bytes, text_eq}
use aitp_verifier_py.Json.{Float, dyadic, nan}
use aitp_verifier_py.Platform.{Platform}

abbrev repr : Float → Text
repr (dyadic (pos n) k) = (b'0' + n % 10) ∷ b'.' ∷ b'0' ∷ []
repr f = []

unfoldable pub toy : Platform
unfolding text_eq
toy = record {
  sha256 = λ b. take 2 b;
  Key = Bytes;
  ed25519_key = λ b. some b;
  p256_key = λ b. some b;
  p256_x = λ k. k;
  p256_y = λ k. k;
  ed25519_verify = λ k sig message. text_eq sig (k ++ k);
  encode_dss_signature = λ r s. r ∷ s ∷ [];
  ecdsa_verify_prehashed = λ k der digest. text_eq der k;
  ecdsa_verify = λ k der message. text_eq der k;
  float_of_int = λ n. some (dyadic n 0);
  float_repr = repr;
  float_of_text = λ t. nan;
  int_of_text = λ t. none;
  rsa_key = λ e n. some (e ∷ n ∷ []);
  rsa_verify = λ k sig message. text_eq sig k;
  p256_point = λ x y. some (x ∷ y ∷ []);
  ipv6_address = λ t. text_eq t (b':' ∷ b':' ∷ []);
}
