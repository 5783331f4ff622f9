-- ===== src/Jws.antt =====
-- aitp_verifier/jws.py: the strict compact-JWS profile (RFC-AITP-0001 §5.4.5).
pub mod Sound
pub mod Boundary
use aitp_verifier_py.Prelude.{
  ℕ, Bool, true, false, not, ◌&&◌, ◌||◌, Option, none, some, List, [], ◌∷◌, ◌++◌, ◌==◌,
  if◌then◌else◌,
}
use aitp_verifier_py.Text.{Text, Bytes, txt, split}
use aitp_verifier_py.Json.{Value, str, obj, Members, get, get_or_null, has, is_text}
use aitp_verifier_py.Json.Decode.{loads}
use aitp_verifier_py.Outcome.{
  Code, Result, Check, ok, err, raised, value_error, raise_if, on_value_error, ◌>>=◌, ◌>>◌,
}
use aitp_verifier_py.Platform.{Platform}
use aitp_verifier_py.B64.{b64url_decode}
use aitp_verifier_py.Fields.{has_extra}
use aitp_verifier_py.Crypto.{PublicKey, verify_jose}
use aitp_verifier_py.Aid.{Aid, parse_aid, jose_alg}

pub record ParsedJws : Type 0 where
  pub header : Members
  pub claims : Members
  pub signing_input : Bytes
  pub signature : Bytes

-- `token.split(".")` has exactly three parts, none of them empty.
unfoldable pub three_parts : List Text → Option (Text × Text × Text)
three_parts ((a ∷ p) ∷ (b ∷ q) ∷ (c ∷ r) ∷ []) = some (a ∷ p, b ∷ q, c ∷ r)
three_parts _ = none

-- `isinstance(value, dict)`, or the structural code.
unfoldable pub as_object : Code → Value → Result Members
as_object code (obj m) = ok m
as_object code _ = err code

-- `except Exception`: the decoder's failure is the structural code.
unfoldable pub on_any {ℓ} : {A : Type ℓ} → Code → Result A → Result A
on_any code (ok a) = ok a
on_any code (err c) = err code
on_any code (raised x) = err code

module _ ⦃π : Platform⦄ where
  unfoldable pub parse_parts : Code → Text → Text → Text → Result ParsedJws
  parse_parts code p0 p1 p2 = do
    header_bytes ← on_value_error code (b64url_decode p0)
    payload_bytes ← on_value_error code (b64url_decode p1)
    signature ← on_value_error code (b64url_decode p2)
    header ← on_any code (loads π.float_of_text header_bytes)
    claims ← on_any code (loads π.float_of_text payload_bytes)
    header_members ← as_object code header
    claims_members ← as_object code claims
    ok (record {
      header = header_members;
      claims = claims_members;
      signing_input = p0 ++ (b'.' ∷ p1);
      signature = signature;
    })

  unfoldable pub parse_token : Text → Code → Result ParsedJws
  parse_token token structural_code = elim (three_parts (split b'.' token)) [
    | none ↦ err structural_code
    | some (p0, p1, p2) ↦ parse_parts structural_code p0 p1 p2
  ]

  unfoldable pub parse_compact : Value → Code → Result ParsedJws
  parse_compact (str token) structural_code = parse_token token structural_code
  parse_compact _ structural_code = err structural_code

  -- `parse_aid(str(iss))`: what `str` makes of any other value does not begin with `aid:`.
  unfoldable pub parse_aid_value : Value → Result Aid
  parse_aid_value (str s) = parse_aid s
  parse_aid_value _ = raised value_error

  -- `set(parsed.header.keys()) != {"alg", "typ"}`
  unfoldable pub bad_header : Members → Bool
  bad_header h =
      not (has (txt "alg") h && has (txt "typ") h && not (has_extra h (txt "alg" ∷ txt "typ" ∷ [])))

  -- the surface's codes for the three kinds of failure
  pub record Codes : Type 0 where
    pub typ_err : Code
    pub alg_err : Code
    pub sig_err : Code

  unfoldable pub verify_jws : Value → Value → Text → Codes → (Members → Check) → Result Members
  verify_jws token iss expected_typ codes after_typ_check = do
    parsed ← parse_compact token codes.sig_err
    raise_if (bad_header parsed.header) codes.alg_err
    raise_if (not (is_text expected_typ (get_or_null (txt "typ") parsed.header))) codes.typ_err
    after_typ_check parsed.claims
    aid ← parse_aid_value iss
    raise_if (not (is_text (jose_alg aid.alg) (get_or_null (txt "alg") parsed.header)))
        codes.alg_err
    raise_if (not (verify_jose aid.public_key parsed.signing_input parsed.signature)) codes.sig_err
    ok parsed.claims
