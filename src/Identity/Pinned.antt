-- ===== src/Identity/Pinned.antt =====
-- `_verify_pinned_key` of aitp_verifier/identity.py (RFC-AITP-0002 §3).
pub mod Sound
use aitp_verifier_py.Prelude.{Bool, true, false, not, ◌||◌, some, List, [], ◌==◌, length}
use aitp_verifier_py.Prelude.Int.{ℤ}
use aitp_verifier_py.Text.{Text, Bytes, txt, text_eq}
use aitp_verifier_py.Json.{Value, str, list, obj, Members, get_or_null, at, has, items}
use aitp_verifier_py.Json.Access.{to_int}
use aitp_verifier_py.Outcome.{
  Code, Result, Check, ok, err, raised, attribute_error, type_error, on_raised, raise_if, ◌>>=◌,
  ◌>>◌, identity_failed,
}
use aitp_verifier_py.Platform.{Platform}
use aitp_verifier_py.B64.{b64url_decode}
use aitp_verifier_py.Crypto.{verify_digest}
use aitp_verifier_py.Aid.{Aid, identifier_length}
use aitp_verifier_py.Sigfield.{decode_tagged_signature}
use aitp_verifier_py.Jws.{parse_aid_value}
use aitp_verifier_py.Proofinput.{pinned_key_domain, handshake_proof_input}
use aitp_verifier_py.Identity.{is_trusted}

-- `value["key"]` of an envelope's member.
unfoldable pub item_at : Value → Text → Result Value
item_at (obj m) key = at key m
item_at _ key = raised type_error

-- `s.encode(...)` and `b64url_decode(s)` of what is no string fail, inside the handler below.
unfoldable pub string_of : Value → Result Text
string_of (str s) = ok s
string_of _ = raised attribute_error

-- `trust_store if isinstance(trust_store, list) else []`
unfoldable pub store_of : Value → List Value
store_of (list l) = items l
store_of _ = []

module _ ⦃π : Platform⦄ where
  -- `public_key` is the sender's own key, in the form of its algorithm.
  unfoldable pub check_own_key : Value → Aid → Check
  check_own_key (str pub_key) sender = do
    raise_if (not (length pub_key == identifier_length sender.alg)) identity_failed
    raw ← b64url_decode pub_key
    raise_if (not (text_eq raw sender.raw_key)) identity_failed
  check_own_key _ sender = err identity_failed

  -- `pinned_key_proof_input` on the envelope's members.
  unfoldable pub pinned_key_proof_input : Members → Value → Value → Result Bytes
  pinned_key_proof_input envelope agent_id self_aid = do
    sender_aid ← string_of agent_id
    receiver_aid ← string_of self_aid
    id ← at (txt "message_id") envelope
    message_id ← string_of id
    time ← at (txt "timestamp") envelope
    timestamp ← to_int time
    payload ← at (txt "payload") envelope
    nonce ← item_at payload (txt "pop_nonce")
    pop_nonce ← string_of nonce
    handshake_proof_input pinned_key_domain sender_aid receiver_aid message_id timestamp pop_nonce

  -- What the `try` computes: the sender, the bytes its proof covers, and the proof.
  unfoldable pub read_pinned : Members → Members → Value → Value → Result (Aid × Bytes × Bytes)
  read_pinned identity envelope self_aid trust_store = do
    let pub_key = get_or_null (txt "public_key") identity
    sender_member ← at (txt "sender") envelope
    agent_id ← item_at sender_member (txt "agent_id")
    sender ← parse_aid_value agent_id
    check_own_key pub_key sender
    raise_if (not (is_trusted (some (sender.alg, sender.raw_key)) (store_of trust_store)))
        identity_failed
    proof_input ← pinned_key_proof_input envelope agent_id self_aid
    sig ← decode_tagged_signature (get_or_null (txt "proof") identity) sender.alg identity_failed
    ok (sender, proof_input, sig)

  unfoldable pub check_proof : Aid × Bytes × Bytes → Check
  check_proof (sender, proof_input, sig) =
      raise_if (not (verify_digest sender.public_key (π.sha256 proof_input) sig)) identity_failed

  unfoldable pub verify_pinned_key : Members → Members → Value → Value → Check
  verify_pinned_key identity envelope self_aid trust_store = do
    raise_if (has (txt "issuer") identity) identity_failed
    pinned ← on_raised identity_failed (read_pinned identity envelope self_aid trust_store)
    check_proof pinned
