-- ===== src/Proofinput.antt =====
-- aitp_verifier/proofinput.py: the five fields that the pinned-key and the X509-SVID proofs sign, each
-- ended by a NUL, after a domain prefix.
pub mod Framing
use aitp_verifier_py.Prelude.{ℕ, ◌+◌, ◌^◌, List, [], ◌∷◌, ◌++◌, ltb, if◌then◌else◌}
use aitp_verifier_py.Prelude.Int.{ℤ, pos, negsuc}
use aitp_verifier_py.Text.{Text, Bytes, txt, encode, utf8_point}
use aitp_verifier_py.Outcome.{Result, ok, raised, or_raise, value_error, unicode_error, ◌>>=◌}
use aitp_verifier_py.B64.{b64url_decode}
use aitp_verifier_py.Jcs.Number.{show}

unfoldable pub pinned_key_domain : Bytes
unfolding txt
pinned_key_domain = txt "aitp-pinned-key-v1" ++ (0 ∷ [])

unfoldable pub spiffe_x509_domain : Bytes
unfolding txt
spiffe_x509_domain = txt "aitp-spiffe-x509-v1" ++ (0 ∷ [])

-- `str(n)`, which CPython refuses above 4300 digits.
unfoldable pub decimal_text : ℤ → Result Text
decimal_text (pos n) = if ltb n (10 ^ 4300) then ok (show n) else raised value_error
decimal_text (negsuc n) =
    if ltb (n + 1) (10 ^ 4300) then ok (b'-' ∷ show (n + 1)) else raised value_error

-- `s.encode("utf-8")`
unfoldable pub utf8 : Text → Result Bytes
utf8 s = or_raise unicode_error (encode utf8_point s)

-- The bytes of the five fields in their order, each before the last with its NUL.
abbrev pub frame : Bytes → Bytes → Bytes → Bytes → Bytes → Bytes → Bytes
frame domain sender receiver message_id timestamp nonce =
    domain ++ (sender ++ (0 ∷ (receiver ++ (0 ∷ (message_id ++ (0 ∷ (timestamp ++ (0 ∷ nonce))))))))

unfoldable pub handshake_proof_input : Bytes → Text → Text → Text → ℤ → Text → Result Bytes
handshake_proof_input domain sender_aid receiver_aid message_id timestamp pop_nonce = do
  sender ← utf8 sender_aid
  receiver ← utf8 receiver_aid
  id ← utf8 message_id
  time ← decimal_text timestamp
  nonce ← b64url_decode pop_nonce
  ok (frame domain sender receiver id time nonce)
