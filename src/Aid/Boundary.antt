-- ===== src/Aid/Boundary.antt =====
-- The only exception of parsing an AID is `ValueError`, and decoding a signature field has none.
use aitp_verifier_py.Prelude.{Bool, true, false, ◌==◌, Option, none, some, if◌then◌else◌, length}
use aitp_verifier_py.Text.{Text, Bytes, txt, strip_prefix}
use aitp_verifier_py.Json.{Value, str}
use aitp_verifier_py.Outcome.{
  Code, Result, raised, value_error, on_value_error, IsVerdict, refused, verdict_rules,
  IsVerdictUpTo, stray, up_to_rules, if-IsVerdictUpTo, returns, on_value_error-IsVerdict, err,
}
use aitp_verifier_py.Platform.{Platform}
use aitp_verifier_py.B64.Boundary.{b64url_decode-up_to, b64url_decode-IsVerdict}
use aitp_verifier_py.Crypto.{Alg, ed25519, p256, of_key, from_raw}
use aitp_verifier_py.Aid.{Aid, identifier_length, algorithm_of, parse_identifier, parse_aid}
use aitp_verifier_py.Sigfield.{
  same_alg, split_tag, raw_signature, decode_tagged_text, decode_tagged_signature,
}

module _ ⦃π : Platform⦄ where
  pub of_key-up_to : (a : Alg) (k : Option π.Key) → IsVerdictUpTo value_error (of_key a k)
  unfolding of_key
  of_key-up_to a none = stray
  of_key-up_to a (some k) = returns _

  pub from_raw-up_to : (a : Alg) (raw : Bytes) → IsVerdictUpTo value_error (from_raw a raw)
  unfolding from_raw
  from_raw-up_to ed25519 raw =
      if-IsVerdictUpTo value_error (length raw == 32) (of_key-up_to ed25519 (π.ed25519_key raw))
        stray
  from_raw-up_to p256 raw =
      if-IsVerdictUpTo value_error (length raw == 33) (of_key-up_to p256 (π.p256_key raw)) stray

  parse_identifier-up_to :
      (aid : Text) (a : Alg) (ident : Text)
      → IsVerdictUpTo value_error (parse_identifier aid a ident)
  unfolding parse_identifier
  parse_identifier-up_to aid a ident =
      if-IsVerdictUpTo value_error (length ident == identifier_length a)
        (search (up_to_rules, b64url_decode-up_to, from_raw-up_to) depth 12) stray

  prefix_case :
      (aid : Text) (o : Option Text)
      → IsVerdictUpTo value_error (elim o as (λ _. Result Aid) [
        | none ↦ raised value_error
        | some rest ↦ let (alg, ident) = algorithm_of rest in parse_identifier aid alg ident
      ])
  prefix_case aid none = stray
  prefix_case aid (some rest) =
      parse_identifier-up_to aid (algorithm_of rest).0 (algorithm_of rest).1

  pub parse_aid-up_to : (aid : Text) → IsVerdictUpTo value_error (parse_aid aid)
  unfolding parse_aid
  parse_aid-up_to aid = prefix_case aid (strip_prefix (txt "aid:pubkey:") aid)

  pub parse_aid-IsVerdict : (c : Code) (aid : Text) → IsVerdict (on_value_error c (parse_aid aid))
  parse_aid-IsVerdict c aid = on_value_error-IsVerdict c (parse_aid-up_to aid)

raw_signature-IsVerdict : (body : Text) (c : Code) → IsVerdict (raw_signature body c)
unfolding raw_signature
raw_signature-IsVerdict body c = search (verdict_rules, b64url_decode-IsVerdict) depth 10

pub if-IsVerdict {ℓ} :
    {A : Type ℓ} (t : Bool) {r s : Result A}
    → IsVerdict r
    → IsVerdict s
    → IsVerdict (if t then r else s)
if-IsVerdict true p q = p
if-IsVerdict false p q = q

tag_case :
    (alg : Alg) (c : Code) (o : Option (Alg × Text))
    → IsVerdict (elim o as (λ _. Result Bytes) [
      | none ↦ err c
      | some (a, body) ↦ if same_alg a alg then raw_signature body c else err c
    ])
tag_case alg c none = refused c
tag_case alg c (some (a, body)) =
    if-IsVerdict (same_alg a alg) (raw_signature-IsVerdict body c) (refused c)

pub decode_tagged_signature-IsVerdict :
    (v : Value) (alg : Alg) (c : Code) → IsVerdict (decode_tagged_signature v alg c)
unfolding decode_tagged_signature decode_tagged_text
decode_tagged_signature-IsVerdict (str sig) alg c = tag_case alg c (split_tag sig)
decode_tagged_signature-IsVerdict _ alg c = refused c
