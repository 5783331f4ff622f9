-- ===== src/Jws/Boundary.antt =====
-- Which tokens make `verify_jws` end in a Python exception.
use aitp_verifier_py.Prelude.{◌≡◌, Option, none, some}
use aitp_verifier_py.Text.{Text, split}
use aitp_verifier_py.Json.{Value, str, obj, Members}
use aitp_verifier_py.Outcome.{
  Code, Result, Check, ok, err, raised, IsVerdict, returned, refused, verdict_rules,
}
use aitp_verifier_py.Platform.{Platform}
use aitp_verifier_py.B64.Boundary.{b64url_decode-IsVerdict}
use aitp_verifier_py.Jws.{
  ParsedJws, three_parts, as_object, on_any, parse_parts, parse_token, parse_compact,
  parse_aid_value, Codes, verify_jws,
}

pub on_any-IsVerdict {ℓ} : {A : Type ℓ} (c : Code) (r : Result A) → IsVerdict (on_any c r)
unfolding on_any
on_any-IsVerdict c (ok a) = returned a
on_any-IsVerdict c (err d) = refused c
on_any-IsVerdict c (raised x) = refused c

as_object-IsVerdict : (c : Code) (v : Value) → IsVerdict (as_object c v)
unfolding as_object
as_object-IsVerdict c (obj m) = returned m
as_object-IsVerdict c _ = refused c

module _ ⦃π : Platform⦄ where
  parse_parts-IsVerdict : (c : Code) (p0 p1 p2 : Text) → IsVerdict (parse_parts c p0 p1 p2)
  unfolding parse_parts
  parse_parts-IsVerdict c p0 p1 p2 =
      search (verdict_rules, b64url_decode-IsVerdict, on_any-IsVerdict, as_object-IsVerdict) depth
        30

  parts_case :
      (c : Code) (o : Option (Text × Text × Text))
      → IsVerdict (elim o as (λ _. Result ParsedJws) [
        | none ↦ err c
        | some (p0, p1, p2) ↦ parse_parts c p0 p1 p2
      ])
  parts_case c none = refused c
  parts_case c (some (p0, p1, p2)) = parse_parts-IsVerdict c p0 p1 p2

  -- Whatever the token is, parsing it is a verdict.
  pub parse_compact-IsVerdict : (token : Value) (c : Code) → IsVerdict (parse_compact token c)
  unfolding parse_compact parse_token
  parse_compact-IsVerdict (str t) c = parts_case c (three_parts (split b'.' t))
  parse_compact-IsVerdict _ c = refused c

  -- Verifying is a verdict whenever the artifact's own check is, and the issuer, if that check
  -- passed, is an AID: `verify_jws` does not catch the `ValueError` of `parse_aid`.
  pub verify_jws-IsVerdict :
      (token iss : Value) (typ : Text) (codes : Codes) (check : Members → Check)
      → ((m : Members) → IsVerdict (check m))
      → ((m : Members) → check m ≡ ok tt → IsVerdict (parse_aid_value iss))
      → IsVerdict (verify_jws token iss typ codes check)
  unfolding verify_jws
  verify_jws-IsVerdict token iss typ codes check safe parses =
      search (verdict_rules, parse_compact-IsVerdict, safe, parses) depth 30
