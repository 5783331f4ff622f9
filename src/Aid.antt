-- ===== src/Aid.antt =====
-- aitp_verifier/aid.py: parsing of `aid:pubkey:` identifiers.
pub mod Boundary
use aitp_verifier_py.Prelude.{
  ℕ, Bool, ◌≡◌, Option, none, some, List, [], ◌∷◌, ◌==◌, if◌then◌else◌, length,
}
use aitp_verifier_py.Text.{Text, Bytes, txt, strip_prefix}
use aitp_verifier_py.Outcome.{Result, ok, err, raised, value_error, ◌>>=◌}
use aitp_verifier_py.Platform.{Platform}
use aitp_verifier_py.B64.{b64url_decode}
use aitp_verifier_py.Crypto.{Alg, ed25519, p256, PublicKey, from_raw}

-- `_JOSE_ALG`
unfoldable pub jose_alg : Alg → Text
unfolding txt
jose_alg ed25519 = txt "EdDSA"
jose_alg p256 = txt "ES256"

abbrev pub identifier_length : Alg → ℕ
identifier_length ed25519 = 43
identifier_length p256 = 44

-- The algorithm and the identifier of what follows `aid:pubkey:`.
unfoldable pub algorithm_of : Text → Alg × Text
unfolding txt strip_prefix
algorithm_of rest = elim (strip_prefix (txt "ed25519:") rest) [
  | some ident ↦ (ed25519, ident)
  | none ↦ elim (strip_prefix (txt "p256:") rest) [
    | some ident ↦ (p256, ident)
    | none ↦ (ed25519, rest)
  ]
]

module _ ⦃π : Platform⦄ where
  pub record Aid : Type 0 where
    pub aid : Text
    pub alg : Alg
    pub raw_key : Bytes
    pub public_key : PublicKey

  unfoldable pub parse_identifier : Text → Alg → Text → Result Aid
  parse_identifier aid alg ident =
      if length ident == identifier_length alg
      then (do
        raw ← b64url_decode ident
        key ← from_raw alg raw
        ok (record { aid = aid; alg = alg; raw_key = raw; public_key = key }))
      else raised value_error

  unfoldable pub parse_aid : Text → Result Aid
  parse_aid aid = elim (strip_prefix (txt "aid:pubkey:") aid) [
    | none ↦ raised value_error
    | some rest ↦ let (alg, ident) = algorithm_of rest in parse_identifier aid alg ident
  ]
