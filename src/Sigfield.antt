-- ===== src/Sigfield.antt =====
-- aitp_verifier/sigfield.py: algorithm-tagged signature fields (RFC-AITP-0001 §5.4.3).
use aitp_verifier_py.Prelude.{
  Bool, true, false, not, Option, none, some, ◌==◌, if◌then◌else◌, length,
}
use aitp_verifier_py.Text.{Text, Bytes, txt, text_eq, partition}
use aitp_verifier_py.Json.{Value, str}
use aitp_verifier_py.Outcome.{Code, Result, ok, err, raise_if, on_value_error, ◌>>=◌, ◌>>◌}
use aitp_verifier_py.B64.{b64url_decode}
use aitp_verifier_py.Crypto.{Alg, ed25519, p256}

abbrev pub same_alg : Alg → Alg → Bool
same_alg ed25519 ed25519 = true
same_alg p256 p256 = true
same_alg _ _ = false

-- `tag not in ("ed25519", "p256")` is `none`.
unfoldable pub tag_alg : Text → Option Alg
unfolding txt text_eq
tag_alg tag =
    if text_eq tag (txt "ed25519")
    then some ed25519
    else if text_eq tag (txt "p256")
    then some p256
    else none

-- The declared algorithm and the body: untagged is Ed25519, and a tag is what stands before the
-- first dot.
unfoldable pub split_tag : Text → Option (Alg × Text)
unfolding partition
split_tag sig =
    let (tag, dotted, body) = partition b'.' sig in
    if dotted
    then elim (tag_alg tag) [ none ↦ none | some a ↦ some (a, body) ]
    else some (ed25519, sig)

unfoldable pub raw_signature : Text → Code → Result Bytes
raw_signature body sig_err = do
  raw ← on_value_error sig_err (b64url_decode body)
  raise_if (not (length raw == 64)) sig_err
  ok raw

-- `decode_tagged_signature_for` on a string; on any other value it is `sig_err`.
unfoldable pub decode_tagged_text : Text → Alg → Code → Result Bytes
decode_tagged_text sig alg sig_err = elim (split_tag sig) [
  | none ↦ err sig_err
  | some (a, body) ↦ if same_alg a alg then raw_signature body sig_err else err sig_err
]

unfoldable pub decode_tagged_signature : Value → Alg → Code → Result Bytes
decode_tagged_signature (str sig) alg sig_err = decode_tagged_text sig alg sig_err
decode_tagged_signature _ alg sig_err = err sig_err
