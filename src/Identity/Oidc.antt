-- ===== src/Identity/Oidc.antt =====
-- `_verify_oidc` of aitp_verifier/identity.py (RFC-AITP-0002 §2).
pub mod Sound
use aitp_verifier_py.Prelude.{
  ℕ, Bool, true, false, not, ◌&&◌, ◌||◌, Option, none, some, List, [], ◌∷◌, ltb, any, if◌then◌else◌,
}
use aitp_verifier_py.Prelude.Int.{ℤ, pos, ◌-ℤ◌, abs, leb_ℤ}
use aitp_verifier_py.Text.{Text, txt, text_eq, mem_text}
use aitp_verifier_py.Json.{
  Value, null, int, str, obj, Members, end, get, get_or_null, at, has, is_text, truthy,
}
use aitp_verifier_py.Outcome.{
  Code, Result, Check, ok, err, raised, attribute_error, raise_if, on_value_error, ◌>>=◌, ◌>>◌,
  identity_failed, incompatible_trust_anchors, key_resolution_failed,
}
use aitp_verifier_py.Platform.{Platform}
use aitp_verifier_py.Jwk.{thumbprint}
use aitp_verifier_py.Jwk.Issuer.{IssuerKey, verify_idp_token, issuer_keys_from}
use aitp_verifier_py.Jws.{ParsedJws, parse_compact, parse_aid_value}
use aitp_verifier_py.Envelope.Contains.{equal}
use aitp_verifier_py.Identity.Pinned.{item_at}

abbrev pub allowed_oidc_algs : List Text
allowed_oidc_algs = txt "EdDSA" ∷ txt "ES256" ∷ txt "RS256" ∷ []

abbrev pub forbidden_header_params : List Text
forbidden_header_params = txt "jwk" ∷ txt "jku" ∷ txt "x5u" ∷ txt "x5c" ∷ txt "crit" ∷ []

abbrev pub iat_tolerance_secs : ℕ
iat_tolerance_secs = 300

-- `value is not None`
unfoldable pub is_set : Value → Bool
is_set null = false
is_set _ = true

-- `isinstance(v, str)`, or the code
unfoldable pub require_text : Code → Value → Result Text
require_text c (str s) = ok s
require_text c _ = err c

-- The header's `alg`, one of the allowed.
unfoldable pub allowed_alg : Value → Result Text
allowed_alg (str alg) = if mem_text alg allowed_oidc_algs then ok alg else err identity_failed
allowed_alg _ = err identity_failed

-- `issuer_keys.get(issuer) if isinstance(issuer_keys, Mapping) else None`
unfoldable pub keys_for : Text → Value → Value
keys_for issuer (obj m) = get_or_null issuer m
keys_for issuer _ = null

-- `exp` is an integer, not a bool, and after `now`.
unfoldable pub is_future : Value → ℤ → Bool
is_future (int exp) now = not (leb_ℤ exp now)
is_future _ now = false

-- `iat` is an integer, not a bool, within the tolerance of `now`.
unfoldable pub is_recent : Value → ℤ → Bool
is_recent (int iat) now = not (ltb iat_tolerance_secs (abs (now -ℤ iat)))
is_recent _ now = false

-- `self_aid and aud != self_aid`
unfoldable pub is_other : Value → Value → Bool
is_other self_aid aud = truthy self_aid && not (equal aud self_aid)

-- `envelope.get("payload", {}).get("pop_nonce")`
unfoldable pub pop_nonce_of : Option Value → Result Value
pop_nonce_of none = ok null
pop_nonce_of (some (obj payload)) = ok (get_or_null (txt "pop_nonce") payload)
pop_nonce_of (some v) = raised attribute_error

-- `cnf.get("jkt") if isinstance(cnf, dict) else None`
unfoldable pub jkt_of : Value → Value
jkt_of (obj cnf) = get_or_null (txt "jkt") cnf
jkt_of _ = null

-- `c.kid == kid`
unfoldable pub has_kid : Value → Option Text → Bool
has_kid kid none = false
has_kid kid (some s) = is_text s kid

-- `identity.get("proof", "")`
unfoldable pub proof_of : Option Value → Value
proof_of none = str []
proof_of (some v) = v

module _ ⦃π : Platform⦄ where
  unfoldable pub with_kid : Value → List IssuerKey → List IssuerKey
  unfolding has_kid
  with_kid kid [] = []
  with_kid kid (c ∷ cs) = let rest = with_kid kid cs in if has_kid kid c.kid then c ∷ rest else rest

  unfoldable pub only_one : List IssuerKey → Result IssuerKey
  only_one (c ∷ []) = ok c
  only_one _ = err identity_failed

  -- `_select_issuer_key`
  unfoldable pub select_issuer_key : List IssuerKey → Value → Result IssuerKey
  select_issuer_key candidates null = only_one candidates
  select_issuer_key candidates kid = only_one (with_kid kid candidates)

  unfoldable pub some_candidate : List IssuerKey → Check
  some_candidate [] = err key_resolution_failed
  some_candidate (c ∷ cs) = ok tt

  -- The key of the trusted issuer that signed the token.
  unfoldable pub check_token_signature : ParsedJws → Text → Value → Check
  check_token_signature parsed issuer issuer_keys = do
    raise_if (any (λ k. has k parsed.header) forbidden_header_params) identity_failed
    alg ← allowed_alg (get_or_null (txt "alg") parsed.header)
    candidates ←
        on_value_error key_resolution_failed (issuer_keys_from (keys_for issuer issuer_keys))
    some_candidate candidates
    key ← select_issuer_key candidates (get_or_null (txt "kid") parsed.header)
    raise_if (not (text_eq key.jose_alg alg)) identity_failed
    raise_if (not (verify_idp_token key.public_key parsed.signing_input parsed.signature))
        identity_failed

  -- The claims, after the signature.
  unfoldable pub check_identity_claims : Members → Members → Members → Text → Value → ℤ → Check
  check_identity_claims claims identity envelope issuer self_aid now = do
    raise_if (not (is_text issuer (get_or_null (txt "iss") claims))) identity_failed
    raise_if (not (equal (get_or_null (txt "sub") claims) (get_or_null (txt "subject") identity)))
        identity_failed
    raise_if (not (is_future (get_or_null (txt "exp") claims) now)) identity_failed
    raise_if (not (is_recent (get_or_null (txt "iat") claims) now)) identity_failed
    let aud = get_or_null (txt "aud") claims
    raise_if (not (is_set aud)) identity_failed
    raise_if (is_other self_aid aud) identity_failed
    pop_nonce ← pop_nonce_of (get (txt "payload") envelope)
    let nonce = get_or_null (txt "nonce") claims
    raise_if (not (is_set nonce && (is_set pop_nonce && equal nonce pop_nonce))) identity_failed
    sender ← at (txt "sender") envelope
    sender_aid ← item_at sender (txt "agent_id")
    aid ← parse_aid_value sender_aid
    raise_if (not (is_text (thumbprint aid) (jkt_of (get_or_null (txt "cnf") claims))))
        identity_failed

  unfoldable pub verify_oidc : Members → Members → Value → List Text → Value → ℤ → Check
  verify_oidc identity envelope self_aid trust_anchors issuer_keys now = do
    raise_if (is_set (get_or_null (txt "public_key") identity)) identity_failed
    issuer ← require_text identity_failed (get_or_null (txt "issuer") identity)
    raise_if (not (mem_text issuer trust_anchors)) incompatible_trust_anchors
    parsed ← parse_compact (proof_of (get (txt "proof") identity)) identity_failed
    check_token_signature parsed issuer issuer_keys
    check_identity_claims parsed.claims identity envelope issuer self_aid now
