-- ===== src/Handshake/Commit.antt =====
-- `_verify_commit` of aitp_verifier/handshake.py: round 2, the peer-issued token.
pub mod Sound
use aitp_verifier_py.Prelude.{
  Bool, true, false, not, ◌||◌, Option, none, some, List, [], ◌∷◌, any, if◌then◌else◌,
}
use aitp_verifier_py.Prelude.Int.{ℤ, leb_ℤ}
use aitp_verifier_py.Text.{Text, Bytes, txt, split, subset}
use aitp_verifier_py.Json.{
  Value, null, str, list, obj, Members, end, get, get_or_null, at, has, names, items, is_text,
  truthy,
}
use aitp_verifier_py.Json.Access.{text_at, texts_at, int_at}
use aitp_verifier_py.Outcome.{
  Code, Result, Check, ok, err, raised, attribute_error, type_error, raise_if, on_value_error,
  ◌>>=◌, ◌>>◌, invalid_envelope, unknown_version, audience_mismatch, tct_expired,
  tct_signature_invalid, pop_verification_failed, grant_overflow,
}
use aitp_verifier_py.Platform.{Platform}
use aitp_verifier_py.B64.{b64url_decode}
use aitp_verifier_py.Fields.{reject_unknown_members}
use aitp_verifier_py.Crypto.{verify_digest}
use aitp_verifier_py.Aid.{Aid}
use aitp_verifier_py.Jws.{parse_compact, parse_aid_value}
use aitp_verifier_py.Revocation.{protocol_version}
use aitp_verifier_py.Tct.{check_grant_context, other_audience, check_binding, verify_token}
use aitp_verifier_py.Delegation.Hops.{characters_of}
use aitp_verifier_py.Manifest.{texts_in}

abbrev pub commit_payload_fields : List Text
commit_payload_fields =
    txt "tct"
    ∷ txt "grant_voucher"
    ∷ txt "pop_signature"
    ∷ txt "pop_nonce_echo"
    ∷ txt "extensions"
    ∷ []

-- `value.get(key, {})`
unfoldable pub get_object : Text → Value → Result Value
get_object key (obj m) = ok (elim (get key m) [ none ↦ obj end | some v ↦ v ])
get_object key _ = raised attribute_error

unfoldable pub get_member : Text → Value → Result Value
get_member key (obj m) = ok (get_or_null key m)
get_member key _ = raised attribute_error

-- `inp.get("envelope", {}).get("sender", {}).get("agent_id")`
unfoldable pub envelope_sender : Members → Result Value
envelope_sender inp = do
  envelope ← get_object (txt "envelope") (obj inp)
  sender ← get_object (txt "sender") envelope
  get_member (txt "agent_id") sender

-- `a or b`
abbrev pub or_else : Value → Value → Value
or_else a b = if truthy a then a else b

unfoldable pub self_nonce : Members → Value
self_nonce inp = or_else (get_or_null (txt "self_pop_nonce_sent_in_hello_ack") inp) (
    or_else (get_or_null (txt "self_pop_nonce_sent_in_hello") inp)
      (get_or_null (txt "self_pop_nonce") inp))

-- `s.split(".")[-1]`
unfoldable pub last_part : List Text → Text
last_part [] = []
last_part (p ∷ []) = p
last_part (p ∷ q ∷ ps) = last_part (q ∷ ps)

-- `b64url_decode(self_nonce)`; a nonce that is no string is one of Python's own exceptions.
unfoldable pub decode_nonce : Value → Result Bytes
decode_nonce (str s) = b64url_decode s
decode_nonce _ = raised type_error

-- `set(offered)`, of which only the strings can equal a grant; a list or an object is not hashable.
unfoldable pub is_unhashable : Value → Bool
is_unhashable (list l) = true
is_unhashable (obj m) = true
is_unhashable _ = false

unfoldable pub offered_set : Value → Result (List Text)
offered_set (list l) =
    if any is_unhashable (items l) then raised type_error else ok (texts_in (items l))
offered_set (str s) = ok (texts_in (characters_of s))
offered_set (obj m) = ok (names m)
offered_set _ = raised type_error

-- `offered is not None and not set(claims["grants"]).issubset(set(offered))`
unfoldable pub check_offered : List Text → Value → Check
check_offered grants null = ok tt
check_offered grants offered = do
  allowed ← offered_set offered
  raise_if (not (subset grants allowed)) grant_overflow

module _ ⦃π : Platform⦄ where
  -- The issuer of the token where there is no envelope.
  unfoldable pub commit_sender : Value → Value → Result Value
  commit_sender null tct = do
    parsed ← parse_compact tct tct_signature_invalid
    ok (get_or_null (txt "iss") parsed.claims)
  commit_sender sender tct = ok sender

  -- The round-2 proof of possession over the verifier's own nonce, where both are there.
  unfoldable pub check_round_two : Value → Value → Value → Check
  check_round_two (str pop_signature) nonce sender =
      if truthy nonce
      then (do
        aid ← parse_aid_value sender
        sig ←
            on_value_error pop_verification_failed
              (b64url_decode (last_part (split b'.' pop_signature)))
        bytes ← decode_nonce nonce
        raise_if (not (verify_digest aid.public_key (π.sha256 bytes) sig)) pop_verification_failed)
      else ok tt
  check_round_two _ nonce sender = ok tt

  -- The checks on the verified claims of the embedded token.
  unfoldable pub check_commit_claims : Members → Members → Value → ℤ → Check
  check_commit_claims inp claims self_aid now = do
    raise_if (not (is_text protocol_version (get_or_null (txt "ver") claims))) unknown_version
    aud ← text_at (txt "aud") claims
    raise_if (other_audience self_aid aud) audience_mismatch
    exp ← int_at (txt "exp") claims
    raise_if (leb_ℤ exp now) tct_expired
    check_grant_context claims
    check_binding claims
    grants ← texts_at (txt "grants") claims
    check_offered grants (get_or_null (txt "issuer_offered_capabilities") inp)

  unfoldable pub verify_commit_members : Members → Members → Value → ℤ → Result Value
  verify_commit_members inp payload self_aid now = do
    reject_unknown_members payload commit_payload_fields
    raise_if (not (has (txt "tct") payload)) invalid_envelope
    tct ← at (txt "tct") payload
    agent_id ← envelope_sender inp
    sender ← commit_sender agent_id tct
    check_round_two (get_or_null (txt "pop_signature") payload) (self_nonce inp) sender
    claims ← verify_token tct
    check_commit_claims inp claims self_aid now
    at (txt "grants") claims

  unfoldable pub verify_commit : Members → Value → Value → ℤ → Result Value
  verify_commit inp (obj payload) self_aid now = verify_commit_members inp payload self_aid now
  verify_commit inp _ self_aid now = err invalid_envelope
